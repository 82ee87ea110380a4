-- ===== src/Audio/Choice.antt =====
-- Which device is chosen, and that no reference to another one is kept.
use Prim.Native.String.{String}
use text.Mathlib.Text.{◌==◌ as str_eq}
use dmx_enttec_node.Prelude.{
  ℕ, suc, ◌+◌, ◌<◌, ◌≡◌, ◌≢◌, refl, ap, ◌∙◌, Bool, true, false, ◌==◌, if◌then◌else◌, Bool-cases,
  inl, inr, Option, none, some, Option-cases, List, [], ◌∷◌, get_elem?, ℤ, pos, negsuc, Result, ok,
  throw, fault, arith,
}
use mathlib.Core.Logic.{◌⊎◌}
use dmx_enttec_node.Audio.Devices.{
  SoundIoDevice, SoundIo, Refs, get_device, unref_device, matches, find_device, take_device,
  take_found, get_audio_device, choose_device,
}

-- The references that a result stands for
abbrev pub held_by : Result ℕ → ℕ → ℕ
held_by (ok i) j = if j == i then 1 else 0
held_by (throw e) j = 0
held_by fault j = 0

pub balanced : (i : ℕ) (refs : Refs) (j : ℕ) → unref_device i (get_device i refs) j ≡ refs j
balanced i refs j = ground arith

find_device-refs :
    (is_raw : Bool) (id : String) (i : ℕ) (devices : List SoundIoDevice) (refs : Refs) (j : ℕ)
    → (find_device is_raw id i devices refs).1 j ≡ refs j
unfolding find_device
find_device-refs is_raw id i [] refs j = refl
find_device-refs is_raw id i (d ∷ ds) refs j = elim (Bool-cases (matches is_raw id d)) [
  | inl same ↦ rw same (balanced i refs j)
  | inr differs ↦ rw differs (
      find_device-refs is_raw id (suc i) ds (unref_device i (get_device i refs)) j
      ∙ balanced i refs j)
]

take_device-refs :
    (devices : List SoundIoDevice) (i : ℕ) (refs : Refs) (j : ℕ)
    → (take_device devices i refs).1 j ≡ refs j + held_by (take_device devices i refs).0 j
take_device-refs devices i refs j = elim (Option-cases (get_elem? devices i)) [
  | inl none_ ↦ rw (none_, take_device) (omega arith)
  | inr (d, some_) ↦ rw (some_, take_device) (ground arith)
]

take_found-refs :
    (devices : List SoundIoDevice) (found : Option ℕ × Refs) (j : ℕ)
    → (take_found devices found).1 j ≡ found.1 j + held_by (take_found devices found).0 j
take_found-refs devices (none, refs) j = omega arith
take_found-refs devices (some i, refs) j = take_device-refs devices i refs j

choose_device-refs :
    (default : ℤ) (devices : List SoundIoDevice) (id : String) (is_raw : Bool) (refs : Refs) (j : ℕ)
    → let (result, refs') = choose_device default devices id is_raw refs in
      refs' j ≡ refs j + held_by result j
unfolding choose_device
choose_device-refs (negsuc n) devices id is_raw refs j = omega arith
choose_device-refs (pos default) devices id is_raw refs j = elim (Bool-cases (str_eq id "")) [
  | inl unnamed ↦ rw unnamed (take_device-refs devices default refs j)
  | inr named ↦ rw named (
      take_found-refs devices (find_device is_raw id 0 devices refs) j
      ∙ ap (λ n. n + held_by (take_found devices (find_device is_raw id 0 devices refs)).0 j)
          (find_device-refs is_raw id 0 devices refs j))
]

-- However the choice ends, one reference to the device that is given is held, and of every other
-- device as many as before.
pub get_audio_device-refs :
    (soundio : SoundIo) (id : String) (is_raw : Bool) (refs : Refs) (j : ℕ)
    → let (result, refs') = get_audio_device soundio id is_raw refs in
      refs' j ≡ refs j + held_by result j
unfolding get_audio_device
get_audio_device-refs soundio id is_raw refs j =
    choose_device-refs soundio.default_index soundio.devices id is_raw refs j

-- Device `i` of the list is the first one that matches.
pub record IsFirst (is_raw : Bool) (id : String) (devices : List SoundIoDevice) (i : ℕ)
    : Type 0 where
  pub device : SoundIoDevice
  pub there : get_elem? devices i ≡ some device
  pub same : matches is_raw id device ≡ true
  pub earlier :
      (k : ℕ) (d : SoundIoDevice)
      → k < i
      → get_elem? devices k ≡ some d
      → matches is_raw id d ≡ false

-- What makes device `i` the one that is given
abbrev pub IsChosen : ℤ → List SoundIoDevice → String → Bool → ℕ → Type 0
IsChosen default devices id is_raw i =
    ((id ≡ "") × (default ≡ pos i)) ⊎ ((id ≢ "") × IsFirst is_raw id devices i)
