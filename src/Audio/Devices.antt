-- ===== src/Audio/Devices.antt =====
-- libs/soundio/audio_utils.cc: the choice of an audio device, with the references to devices that
-- libsoundio counts.
use Prim.Native.String.{String}
use text.Mathlib.Text.{◌==◌ as str_eq}
use dmx_enttec_node.Prelude.{
  ℕ, suc, ◌+◌, ◌-◌, Bool, not, ◌&&◌, ◌==◌, if◌then◌else◌, Option, none, some, List, [], ◌∷◌,
  get_elem?, ℤ, pos, negsuc, Result, ok, throw, no_device_found, invalid_device_id, out_of_memory,
}

pub record SoundIoDevice : Type 0 where
  pub id : String
  pub is_raw : Bool

-- What libsoundio knows of the devices of one direction: the default's index, which is negative
-- where there is none, and the devices in order.
pub record SoundIo : Type 0 where
  pub default_index : ℤ
  pub devices : List SoundIoDevice

-- How many references to each device are held: getting a device adds one, `soundio_device_unref`
-- takes one away.
abbrev pub Refs : Type 0
Refs = ℕ → ℕ

abbrev pub get_device : ℕ → Refs → Refs
get_device i refs j = if j == i then refs j + 1 else refs j

abbrev pub unref_device : ℕ → Refs → Refs
unref_device i refs j = if j == i then refs j - 1 else refs j

-- `strcmp(device->id, id) == 0`
abbrev pub matches : Bool → String → SoundIoDevice → Bool
matches is_raw id device = (if device.is_raw then is_raw else not is_raw) && str_eq device.id id

-- The loop over the devices from index `i` on: both ways through its body give the device back.
unfoldable pub find_device : Bool → String → ℕ → List SoundIoDevice → Refs → Option ℕ × Refs
find_device is_raw id i [] refs = (none, refs)
find_device is_raw id i (device ∷ devices) refs =
    let refs' = unref_device i (get_device i refs) in
    let rest = find_device is_raw id (suc i) devices refs' in
    if matches is_raw id device then (some i, refs') else rest

-- `soundio_get_input_device(soundio, index)`, which may give NULL
abbrev pub take_device : List SoundIoDevice → ℕ → Refs → Result ℕ × Refs
take_device devices i refs = elim (get_elem? devices i) [
  | none ↦ (throw out_of_memory, refs)
  | some device ↦ (ok i, get_device i refs)
]

abbrev pub take_found : List SoundIoDevice → Option ℕ × Refs → Result ℕ × Refs
take_found devices (none, refs) = (throw invalid_device_id, refs)
take_found devices (some i, refs) = take_device devices i refs

-- GetAudioInputDevice and GetAudioOutputDevice, which differ in the direction alone: the index of
-- the device, and the references.
unfoldable pub choose_device : ℤ → List SoundIoDevice → String → Bool → Refs → Result ℕ × Refs
unfolding find_device
choose_device (negsuc n) devices id is_raw refs = (throw no_device_found, refs)
choose_device (pos default) devices id is_raw refs =
    if str_eq id ""
    then take_device devices default refs
    else take_found devices (find_device is_raw id 0 devices refs)

unfoldable pub get_audio_device : SoundIo → String → Bool → Refs → Result ℕ × Refs
unfolding choose_device
get_audio_device soundio id is_raw refs =
    choose_device soundio.default_index soundio.devices id is_raw refs
