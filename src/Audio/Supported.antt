-- ===== src/Audio/Supported.antt =====
-- libs/soundio/audio_utils.cc: the devices, the sample formats and the sample rates that are logged
-- at the start.
pub mod Logged
use Prim.Native.String.{String}
use dmx_enttec_node.Prelude.{
  ℕ, zero, suc, ◌+◌, Bool, true, false, not, ◌==◌, if◌then◌else◌, List, [], ◌∷◌, ◌++◌, ℤ, pos,
  negsuc, Result, ok, throw_if, no_sample_format, no_sample_rate, ◌>>=◌, ◌>>◌,
}
use dmx_enttec_node.Audio.Formats.{
  SoundIoFormat, format_invalid, format_s8, format_u8, format_s16_le, format_s16_be, format_u16_le,
  format_u16_be, format_s24_le, format_s24_be, format_u24_le, format_u24_be, format_s32_le,
  format_s32_be, format_u32_le, format_u32_be, format_float32_le, format_float32_be,
  format_float64_le, format_float64_be, format_to_string,
}
use dmx_enttec_node.Audio.Devices.{SoundIoDevice, SoundIo, Refs, get_device, unref_device}

-- The formats named NE are the little-endian ones on the program's platform, and those named FE the
-- big-endian ones. The last one ends the loop.
abbrev pub prioritized_formats : List SoundIoFormat
prioritized_formats =
    format_float32_le ∷ format_float32_be ∷ format_s32_le ∷ format_s32_be ∷ format_s24_le
    ∷ format_s24_be ∷ format_s16_le ∷ format_s16_be ∷ format_float64_le ∷ format_float64_be
    ∷ format_u32_le ∷ format_u32_be ∷ format_u24_le ∷ format_u24_be ∷ format_u16_le ∷ format_u16_be
    ∷ format_s8 ∷ format_u8 ∷ format_invalid ∷ []

abbrev pub prioritized_sample_rates : List ℕ
prioritized_sample_rates = 48000 ∷ 44100 ∷ 96000 ∷ 24000 ∷ 0 ∷ []

abbrev pub is_invalid : SoundIoFormat → Bool
is_invalid format_invalid = true
is_invalid _ = false

-- The loop over the formats: the names that are logged, and `hasValidFormat`. An array without an
-- end mark is not met.
unfoldable pub log_formats :
    (SoundIoFormat → Bool) → List SoundIoFormat → List String × Bool → Result (List String × Bool)
unfolding format_to_string
log_formats supports [] (names, has_valid_format) = ok (names, has_valid_format)
log_formats supports (fmt ∷ fmts) (names, has_valid_format) =
    let skipped = log_formats supports fmts (names, has_valid_format) in
    if is_invalid fmt
    then ok (names, has_valid_format)
    else if supports fmt
    then (format_to_string fmt >>= λ name. log_formats supports fmts (names ++ name ∷ [], true))
    else skipped

-- The names that are logged
unfoldable pub log_supported_formats : (SoundIoFormat → Bool) → Result (List String)
unfolding log_formats
log_supported_formats supports =
    log_formats supports prioritized_formats ([], false) >>= λ (names, has_valid_format).
    throw_if (not has_valid_format) no_sample_format >> ok names

unfoldable pub log_sample_rates : (ℕ → Bool) → List ℕ → List ℕ × Bool → List ℕ × Bool
log_sample_rates supports [] (rates, has_valid_sample_rate) = (rates, has_valid_sample_rate)
log_sample_rates supports (rate ∷ more) (rates, has_valid_sample_rate) =
    let skipped = log_sample_rates supports more (rates, has_valid_sample_rate) in
    let taken = log_sample_rates supports more (rates ++ rate ∷ [], true) in
    if rate == 0 then (rates, has_valid_sample_rate) else if supports rate then taken else skipped

-- The sample rates that are logged
unfoldable pub log_supported_sample_rates : (ℕ → Bool) → Result (List ℕ)
unfolding log_sample_rates
log_supported_sample_rates supports =
    let (rates, has_valid_sample_rate) =
      log_sample_rates supports prioritized_sample_rates ([], false) in
    throw_if (not has_valid_sample_rate) no_sample_rate >> ok rates

-- `default_input == i`
abbrev pub is_default : ℤ → ℕ → Bool
is_default (pos n) i = n == i
is_default (negsuc n) i = false

-- The loop over `n` devices from index `i` on: those that are printed, each with whether it is the
-- default one, and the references.
unfoldable pub log_devices : ℤ → ℕ → ℕ → Refs → List (ℕ × Bool) × Refs
log_devices default i zero refs = ([], refs)
log_devices default i (suc n) refs =
    let (printed, refs') = log_devices default (suc i) n (unref_device i (get_device i refs)) in
    ((i, is_default default i) ∷ printed, refs')

-- The devices of the two directions, with their numbers, and the flags: what is printed, the
-- references of both, and how many devices are said to be found.
unfoldable pub log_supported_devices :
    ℤ
    → ℕ
    → ℤ
    → ℕ
    → Bool
    → Bool
    → Refs × Refs
    → (List (ℕ × Bool) × List (ℕ × Bool)) × (Refs × Refs) × ℕ
unfolding log_devices
log_supported_devices default_input inputs default_output outputs log_input log_output (ins, outs) =
    let (printed_in, ins') =
      if log_input then log_devices default_input 0 inputs ins else ([], ins) in
    let (printed_out, outs') =
      if log_output then log_devices default_output 0 outputs outs else ([], outs) in
    (
      (printed_in, printed_out),
      (ins', outs'),
      (if log_input then inputs else 0) + (if log_output then outputs else 0),
    )
