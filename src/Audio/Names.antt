-- ===== src/Audio/Names.antt =====
-- The names of the formats, as they are printed and as they are read.
use Prim.Native.String.{String}
use text.Mathlib.Text.{◌==◌ as str_eq}
use text.Mathlib.TextEquality.{eq_iff}
use dmx_enttec_node.Prelude.{
  ◌≡◌, refl, sym, ◌∙◌, ◌↔◌, Result, ok, ap, if◌then◌else◌, Bool-cases, inl, inr, ◌>>=◌,
}
use dmx_enttec_node.Audio.Formats.{
  SoundIoFormat, format_invalid, format_s8, format_u8, format_s16_le, format_s16_be, format_u16_le,
  format_u16_be, format_s24_le, format_s24_be, format_u24_le, format_u24_be, format_s32_le,
  format_s32_be, format_u32_le, format_u32_be, format_float32_le, format_float32_be,
  format_float64_le, format_float64_be, other, format_to_string, format_from_string,
}

-- One test of the chain, and what the rest of the chain gives
read_name :
    (s name : String) (f : SoundIoFormat) (rest : Result SoundIoFormat) {g : SoundIoFormat}
    → format_to_string f ≡ ok name
    → (rest ≡ ok g → format_to_string g ≡ ok s)
    → (if str_eq s name then ok f else rest) ≡ ok g
    → format_to_string g ≡ ok s
read_name s name f rest {g} printed later e = elim (Bool-cases (str_eq s name)) [
  | inl same ↦
      let is_f : ok f ≡ ok g = rw same at e in
      let is_name : s ≡ name = (eq_iff s name).0 same in
      sym (ap (λ r. r >>= format_to_string) is_f) ∙ printed ∙ ap ok (sym is_name)
  | inr different ↦ later (rw different at e)
]

read_back :
    (s : String) (g : SoundIoFormat) → format_from_string s ≡ ok g → format_to_string g ≡ ok s
unfolding format_to_string format_from_string
read_back s g e =
    read_name s "SoundIoFormatInvalid" format_invalid _ refl
      (read_name s "SoundIoFormatS8" format_s8 _ refl (
        read_name s "SoundIoFormatU8" format_u8 _ refl (
          read_name s "SoundIoFormatS16LE" format_s16_le _ refl (
            read_name s "SoundIoFormatS16BE" format_s16_be _ refl (
              read_name s "SoundIoFormatU16LE" format_u16_le _ refl (
                read_name s "SoundIoFormatU16BE" format_u16_be _ refl (
                  read_name s "SoundIoFormatS24LE" format_s24_le _ refl (
                    read_name s "SoundIoFormatS24BE" format_s24_be _ refl (
                      read_name s "SoundIoFormatU24LE" format_u24_le _ refl (
                        read_name s "SoundIoFormatU24BE" format_u24_be _ refl (
                          read_name s "SoundIoFormatS32LE" format_s32_le _ refl (
                            read_name s "SoundIoFormatS32BE" format_s32_be _ refl (
                              read_name s "SoundIoFormatU32LE" format_u32_le _ refl (
                                read_name s "SoundIoFormatU32BE" format_u32_be _ refl (
                                  read_name s "SoundIoFormatFloat32LE" format_float32_le _ refl (
                                    read_name s "SoundIoFormatFloat32BE" format_float32_be _ refl (
                                      read_name s "SoundIoFormatFloat64LE" format_float64_le _ refl
                                        (read_name s "SoundIoFormatFloat64BE" format_float64_be _
                                          refl (λ no_name. cc)))))))))))))))))))
      e

print_back :
    (f : SoundIoFormat) {s : String}
    → format_to_string f ≡ ok s
    → (format_to_string f >>= format_from_string) ≡ ok f
unfolding format_to_string format_from_string
print_back format_invalid e = refl
print_back format_s8 e = refl
print_back format_u8 e = refl
print_back format_s16_le e = refl
print_back format_s16_be e = refl
print_back format_u16_le e = refl
print_back format_u16_be e = refl
print_back format_s24_le e = refl
print_back format_s24_be e = refl
print_back format_u24_le e = refl
print_back format_u24_be e = refl
print_back format_s32_le e = refl
print_back format_s32_be e = refl
print_back format_u32_le e = refl
print_back format_u32_be e = refl
print_back format_float32_le e = refl
print_back format_float32_be e = refl
print_back format_float64_le e = refl
print_back format_float64_be e = refl
print_back (other n) e = cc

-- A text is read as a format exactly when the format is printed as the text.
pub format_from_string_lem :
    (s : String) (f : SoundIoFormat) → (format_from_string s ≡ ok f) ↔ (format_to_string f ≡ ok s)
format_from_string_lem s f =
    (read_back s f, λ e. sym (ap (λ r. r >>= format_from_string) e) ∙ print_back f e)
