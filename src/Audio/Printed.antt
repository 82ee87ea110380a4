-- ===== src/Audio/Printed.antt =====
-- libs/soundio/audio_utils.cc: the lines that are logged of a device and of its channel layouts. The
-- conversions of `printf` and the texts of libsoundio are parameters.
pub mod Lines
use Prim.Native.String.{String, ◌++◌ as str_append}
use dmx_enttec_node.Prelude.{
  ℕ, zero, suc, ◌-◌, Bool, true, false, not, if◌then◌else◌, ltb, List, [], ◌∷◌, ◌++◌, map,
  get_elem?, ℤ, pos, negsuc, Option, none, some, Result, ok, or_fault, ◌>>=◌,
}
use dmx_enttec_node.Audio.Formats.{SoundIoFormat}
use dmx_enttec_node.Audio.Supported.{is_invalid}

-- A layout may have no name. `channels` is all of its array, which may be longer than
-- `channel_count`.
pub record SoundIoChannelLayout : Type 0 where
  pub name : Option String
  pub channel_count : ℕ
  pub channels : List ℕ

pub record SoundIoSampleRateRange : Type 0 where
  pub min : ℤ
  pub max : ℤ

-- The fields of a device that are logged; an array of it is as long as its count.
pub record SoundIoDevice (D : Type 0) : Type 0 where
  pub id : String
  pub name : String
  pub is_raw : Bool
  pub probe_error : ℤ
  pub layouts : List SoundIoChannelLayout
  pub current_layout : SoundIoChannelLayout
  pub sample_rates : List SoundIoSampleRateRange
  pub sample_rate_current : ℤ
  pub formats : List SoundIoFormat
  pub current_format : SoundIoFormat
  pub software_latency_min : D
  pub software_latency_max : D
  pub software_latency_current : D

-- `%d`, `%0.8f`, `soundio_strerror`, `soundio_get_channel_name`, `soundio_format_string`, and the
-- test against 0.0
pub record Texts (D : Type 0) : Type 0 where
  pub decimal : ℤ → String
  pub fixed : D → String
  pub strerror : ℤ → String
  pub channel_name : ℕ → String
  pub format_string : SoundIoFormat → String
  pub is_zero_latency : D → Bool

abbrev pub is_zero_int : ℤ → Bool
is_zero_int (pos zero) = true
is_zero_int (pos (suc n)) = false
is_zero_int (negsuc n) = false

-- A line that is logged if the test holds
abbrev pub line_if : Bool → String → List String
line_if true line = line ∷ []
line_if false line = []

-- The text of a line, from its parts
abbrev pub joined : List String → String
joined [] = ""
joined (part ∷ parts) = str_append part (joined parts)

module _ {D : Type 0} (text : Texts D) where
  -- The channels from index `i` on, `n` of them
  unfoldable pub print_channels : ℕ → ℕ → List ℕ → Result (List String)
  print_channels zero i channels = ok []
  print_channels (suc n) i channels = or_fault (get_elem? channels i) >>= λ channel.
      print_channels n (suc i) channels >>= λ lines. ok (text.channel_name channel ∷ lines)

  abbrev pub print_nameless : Option String → Result (List String) → Result (List String)
  print_nameless none lines = lines
  print_nameless (some name) lines = ok (name ∷ [])

  unfoldable pub print_channel_layout : SoundIoChannelLayout → Result (List String)
  unfolding print_channels
  print_channel_layout layout = print_nameless layout.name (
      or_fault (get_elem? layout.channels 0) >>= λ channel.
      print_channels (layout.channel_count - 1) 1 layout.channels >>= λ lines.
      ok (text.channel_name channel ∷ lines))

  unfoldable pub print_layouts : List SoundIoChannelLayout → Result (List String)
  unfolding print_channel_layout
  print_layouts [] = ok []
  print_layouts (layout ∷ layouts) = print_channel_layout layout >>= λ lines.
      print_layouts layouts >>= λ more. ok ("    " ∷ lines ++ "" ∷ more)

  -- `if (device->current_layout.channel_count > 0)`
  unfoldable pub print_current_layout : SoundIoChannelLayout → Result (List String)
  unfolding print_channel_layout
  print_current_layout layout =
      if ltb 0 layout.channel_count
      then (print_channel_layout layout >>= λ lines. ok ("  current layout: " ∷ lines ++ "" ∷ []))
      else ok []

  abbrev pub print_range : SoundIoSampleRateRange → String
  print_range range = joined ("    " ∷ text.decimal range.min ∷ " - " ∷ text.decimal range.max ∷ [])

  -- The loop over the formats, with a comma behind all but the last
  abbrev pub print_formats : List SoundIoFormat → List String
  print_formats [] = []
  print_formats (format ∷ []) = joined (text.format_string format ∷ "" ∷ []) ∷ []
  print_formats (format ∷ format' ∷ formats) =
      joined (text.format_string format ∷ ", " ∷ []) ∷ print_formats (format' ∷ formats)

  -- From the sample rates on
  unfoldable pub print_rates : SoundIoDevice D → List String
  print_rates device =
      "  sample rates:" ∷ map print_range device.sample_rates
      ++ (line_if (not (is_zero_int device.sample_rate_current))
            (joined ("  current sample rate: " ∷ text.decimal device.sample_rate_current ∷ []))
          ++ "  formats: " ∷ print_formats device.formats
          ++ ""
            ∷ line_if (not (is_invalid device.current_format))
                (joined ("  current format: " ∷ text.format_string device.current_format ∷ []))
          ++ joined
              ("  min software latency: " ∷ text.fixed device.software_latency_min ∷ " sec" ∷ [])
            ∷ joined
                ("  max software latency: " ∷ text.fixed device.software_latency_max ∷ " sec" ∷ [])
            ∷ line_if (not (text.is_zero_latency device.software_latency_current)) (
                joined (
                  "  current software latency: "
                  ∷ text.fixed device.software_latency_current
                  ∷ " sec"
                  ∷ [])))

  -- What is logged of a device that has been probed without an error, or of the error
  unfoldable pub print_details : SoundIoDevice D → Result (List String)
  unfolding print_layouts print_current_layout print_rates
  print_details device =
      let details = print_layouts device.layouts >>= λ layouts.
      print_current_layout device.current_layout >>= λ current.
      ok ("  channel layouts:" ∷ layouts ++ (current ++ print_rates device)) in
      if is_zero_int device.probe_error
      then details
      else ok (joined ("  probe error: " ∷ text.strerror device.probe_error ∷ []) ∷ [])

  abbrev pub print_summary : SoundIoDevice D → Bool → String
  print_summary device is_default =
      let default_str : String = if is_default then "(default)" else "" in
      let raw_str : String = if device.is_raw then "(raw)" else "" in
      joined (" " ∷ device.name ∷ default_str ∷ ", id='" ∷ device.id ∷ "' " ∷ raw_str ∷ [])

  unfoldable pub print_device : SoundIoDevice D → Bool → Bool → Result (List String)
  unfolding print_details
  print_device device is_default verbose =
      let detailed =
        print_details device >>= λ lines. ok (print_summary device is_default ∷ lines ++ "" ∷ []) in
      if not verbose then ok (print_summary device is_default ∷ []) else detailed
