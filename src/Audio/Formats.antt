-- ===== src/Audio/Formats.antt =====
-- libs/soundio/audio_utils.cc: the names of the sample formats.
use Prim.Native.String.{String}
use text.Mathlib.Text.{◌==◌ as str_eq}
use dmx_enttec_node.Prelude.{ℕ, if◌then◌else◌, Result, ok, throw, unknown_format}

-- The enumerators that the code names, and any other value of the enumeration
pub data SoundIoFormat : Type 0 where
  format_invalid format_s8 format_u8 format_s16_le format_s16_be format_u16_le format_u16_be
        format_s24_le format_s24_be format_u24_le format_u24_be format_s32_le format_s32_be
        format_u32_le format_u32_be format_float32_le format_float32_be format_float64_le
        format_float64_be :
      SoundIoFormat
  other : ℕ → SoundIoFormat

unfoldable pub format_to_string : SoundIoFormat → Result String
format_to_string format_invalid = ok "SoundIoFormatInvalid"
format_to_string format_s8 = ok "SoundIoFormatS8"
format_to_string format_u8 = ok "SoundIoFormatU8"
format_to_string format_s16_le = ok "SoundIoFormatS16LE"
format_to_string format_s16_be = ok "SoundIoFormatS16BE"
format_to_string format_u16_le = ok "SoundIoFormatU16LE"
format_to_string format_u16_be = ok "SoundIoFormatU16BE"
format_to_string format_s24_le = ok "SoundIoFormatS24LE"
format_to_string format_s24_be = ok "SoundIoFormatS24BE"
format_to_string format_u24_le = ok "SoundIoFormatU24LE"
format_to_string format_u24_be = ok "SoundIoFormatU24BE"
format_to_string format_s32_le = ok "SoundIoFormatS32LE"
format_to_string format_s32_be = ok "SoundIoFormatS32BE"
format_to_string format_u32_le = ok "SoundIoFormatU32LE"
format_to_string format_u32_be = ok "SoundIoFormatU32BE"
format_to_string format_float32_le = ok "SoundIoFormatFloat32LE"
format_to_string format_float32_be = ok "SoundIoFormatFloat32BE"
format_to_string format_float64_le = ok "SoundIoFormatFloat64LE"
format_to_string format_float64_be = ok "SoundIoFormatFloat64BE"
format_to_string (other n) = throw unknown_format

unfoldable pub format_from_string : String → Result SoundIoFormat
format_from_string format =
    if str_eq format "SoundIoFormatInvalid"
    then ok format_invalid
    else if str_eq format "SoundIoFormatS8"
    then ok format_s8
    else if str_eq format "SoundIoFormatU8"
    then ok format_u8
    else if str_eq format "SoundIoFormatS16LE"
    then ok format_s16_le
    else if str_eq format "SoundIoFormatS16BE"
    then ok format_s16_be
    else if str_eq format "SoundIoFormatU16LE"
    then ok format_u16_le
    else if str_eq format "SoundIoFormatU16BE"
    then ok format_u16_be
    else if str_eq format "SoundIoFormatS24LE"
    then ok format_s24_le
    else if str_eq format "SoundIoFormatS24BE"
    then ok format_s24_be
    else if str_eq format "SoundIoFormatU24LE"
    then ok format_u24_le
    else if str_eq format "SoundIoFormatU24BE"
    then ok format_u24_be
    else if str_eq format "SoundIoFormatS32LE"
    then ok format_s32_le
    else if str_eq format "SoundIoFormatS32BE"
    then ok format_s32_be
    else if str_eq format "SoundIoFormatU32LE"
    then ok format_u32_le
    else if str_eq format "SoundIoFormatU32BE"
    then ok format_u32_be
    else if str_eq format "SoundIoFormatFloat32LE"
    then ok format_float32_le
    else if str_eq format "SoundIoFormatFloat32BE"
    then ok format_float32_be
    else if str_eq format "SoundIoFormatFloat64LE"
    then ok format_float64_le
    else if str_eq format "SoundIoFormatFloat64BE"
    then ok format_float64_be
    else throw unknown_format
