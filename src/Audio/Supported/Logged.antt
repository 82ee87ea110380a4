-- ===== src/Audio/Supported/Logged.antt =====
-- What is logged of a device, and that logging keeps no reference to a device.
use Prim.Native.String.{String}
use dmx_enttec_node.Prelude.{
  ℕ, zero, suc, ◌≡◌, refl, ◌∙◌, Bool, true, false, not, ◌||◌, ◌==◌, if◌then◌else◌, Bool-cases, inl,
  inr, List, [], ◌∷◌, ◌++◌, map, take, Error, append-nil, append_assoc, ℤ, ok, throw, fault,
  throw_if, no_sample_format, no_sample_rate, ◌>>◌,
}
use dmx_enttec_node.Audio.Formats.{SoundIoFormat, format_invalid, format_to_string}
use dmx_enttec_node.Audio.Devices.{Refs, get_device, unref_device}
use dmx_enttec_node.Audio.Choice.{balanced}
use dmx_enttec_node.Audio.Supported.{
  is_invalid, prioritized_formats, prioritized_sample_rates, log_formats, log_supported_formats,
  log_sample_rates, log_supported_sample_rates, log_devices, log_supported_devices,
}

module _ {A : Type 0} where
  -- Those that pass a test, in order
  abbrev pub kept : (A → Bool) → List A → List A
  kept test [] = []
  kept test (x ∷ xs) = if test x then x ∷ kept test xs else kept test xs

  abbrev pub is_any : List A → Bool
  is_any [] = false
  is_any (x ∷ xs) = true

abbrev pub name_of : SoundIoFormat → String
name_of format = elim (format_to_string format) [ ok name ↦ name | throw e ↦ "" | fault ↦ "" ]

-- Each has a name, and none is the end mark.
abbrev AreNamed : List SoundIoFormat → Type 0
AreNamed [] = Unit {0}
AreNamed (fmt ∷ fmts) =
    (is_invalid fmt ≡ false) × (format_to_string fmt ≡ ok (name_of fmt)) × AreNamed fmts

abbrev ArePositive : List ℕ → Type 0
ArePositive [] = Unit {0}
ArePositive (rate ∷ rates) = ((rate == 0) ≡ false) × ArePositive rates

or_true : (b : Bool) → (b || true) ≡ true
or_true true = refl
or_true false = refl

log_formats-kept :
    (supports : SoundIoFormat → Bool) (fmts : List SoundIoFormat) (names : List String)
    (found : Bool)
    → AreNamed fmts
    → log_formats supports (fmts ++ format_invalid ∷ []) (names, found)
      ≡ ok (names ++ map name_of (kept supports fmts), is_any (kept supports fmts) || found)
unfolding log_formats
log_formats-kept supports [] names found named = rw (append-nil names) refl
log_formats-kept supports (fmt ∷ fmts) names found (valid, name, named) =
    elim (Bool-cases (supports fmt)) [
      | inl can ↦
          rw (valid, can, name, log_formats)
            (log_formats-kept supports fmts (names ++ name_of fmt ∷ []) true named
              ∙ rw
                  (
                    append_assoc names (name_of fmt ∷ []) (map name_of (kept supports fmts)),
                    or_true (is_any (kept supports fmts)),
                  )
                  refl)
      | inr cannot ↦
          rw (valid, cannot, log_formats) (log_formats-kept supports fmts names found named)
    ]

-- The 18 formats and the 4 sample rates in front of the end marks
abbrev pub sample_formats : List SoundIoFormat
sample_formats = take 18 prioritized_formats

abbrev pub sample_rates : List ℕ
sample_rates = take 4 prioritized_sample_rates

sample_formats-AreNamed : AreNamed sample_formats
unfolding format_to_string
sample_formats-AreNamed = (
  refl,
  refl,
  (
    refl,
    refl,
    (
      refl,
      refl,
      (
        refl,
        refl,
        (
          refl,
          refl,
          (
            refl,
            refl,
            (
              refl,
              refl,
              (
                refl,
                refl,
                (
                  refl,
                  refl,
                  (
                    refl,
                    refl,
                    (
                      refl,
                      refl,
                      (
                        refl,
                        refl,
                        (
                          refl,
                          refl,
                          (refl, refl, (refl, refl, (refl, refl, (refl, refl, (refl, refl, tt))))),
                        ),
                      ),
                    ),
                  ),
                ),
              ),
            ),
          ),
        ),
      ),
    ),
  ),
)

log_sample_rates-kept :
    (supports : ℕ → Bool) (more rates : List ℕ) (found : Bool)
    → ArePositive more
    → log_sample_rates supports (more ++ 0 ∷ []) (rates, found)
      ≡ (rates ++ kept supports more, is_any (kept supports more) || found)
unfolding log_sample_rates
log_sample_rates-kept supports [] rates found positive = rw (append-nil rates) refl
log_sample_rates-kept supports (rate ∷ more) rates found (valid, positive) =
    elim (Bool-cases (supports rate)) [
      | inl can ↦
          rw (valid, can, log_sample_rates)
            (log_sample_rates-kept supports more (rates ++ rate ∷ []) true positive
              ∙ rw
                  (
                    append_assoc rates (rate ∷ []) (kept supports more),
                    or_true (is_any (kept supports more)),
                  )
                  refl)
      | inr cannot ↦
          rw (valid, cannot, log_sample_rates)
            (log_sample_rates-kept supports more rates found positive)
    ]

reported :
    {A B : Type 0} (xs : List A) (ys : List B) (e : Error)
    → (throw_if (not (is_any xs || false)) e >> ok ys) ≡ (if is_any xs then ok ys else throw e)
reported [] ys e = refl
reported (x ∷ xs) ys e = refl

-- What is logged of the formats and the sample rates that a device supports: the supported ones of
-- the lists, in their order; where there is none, an exception is thrown.
pub log_supported_lem :
    (supports_format : SoundIoFormat → Bool) (supports_rate : ℕ → Bool)
    → (log_supported_formats supports_format ≡ (
        if is_any (kept supports_format sample_formats)
        then ok (map name_of (kept supports_format sample_formats))
        else throw no_sample_format))
      × (log_supported_sample_rates supports_rate ≡ (
          if is_any (kept supports_rate sample_rates)
          then ok (kept supports_rate sample_rates)
          else throw no_sample_rate))
unfolding log_supported_formats log_supported_sample_rates
log_supported_lem supports_format supports_rate = (
  rw
      (
        log_formats-kept supports_format sample_formats [] false sample_formats-AreNamed,
        log_supported_formats,
      )
      (reported (kept supports_format sample_formats)
        (map name_of (kept supports_format sample_formats)) no_sample_format),
  rw
      (
        log_sample_rates-kept supports_rate sample_rates [] false
            (refl, (refl, (refl, (refl, tt)))),
        log_supported_sample_rates,
      )
      (reported (kept supports_rate sample_rates) (kept supports_rate sample_rates) no_sample_rate),
)

log_devices-refs :
    (default : ℤ) (i n : ℕ) (refs : Refs) (j : ℕ) → (log_devices default i n refs).1 j ≡ refs j
unfolding log_devices
log_devices-refs default i zero refs j = refl
log_devices-refs default i (suc n) refs j =
    log_devices-refs default (suc i) n (unref_device i (get_device i refs)) j ∙ balanced i refs j

-- Logging the devices keeps no reference to any of them, whatever is to be logged.
pub log_supported_devices-refs :
    (default_input default_output : ℤ) (inputs outputs : ℕ) (log_input log_output : Bool)
    (ins outs : Refs) (j : ℕ)
    → let (printed, refs, found) =
        log_supported_devices default_input inputs default_output outputs log_input log_output
          (ins, outs) in
      (refs.0 j ≡ ins j) × (refs.1 j ≡ outs j)
unfolding log_supported_devices
log_supported_devices-refs default_input default_output inputs outputs true true ins outs j = (
  log_devices-refs default_input 0 inputs ins j,
  log_devices-refs default_output 0 outputs outs j,
)
log_supported_devices-refs default_input default_output inputs outputs true false ins outs j =
    (log_devices-refs default_input 0 inputs ins j, refl)
log_supported_devices-refs default_input default_output inputs outputs false true ins outs j =
    (refl, log_devices-refs default_output 0 outputs outs j)
log_supported_devices-refs default_input default_output inputs outputs false false ins outs j =
    (refl, refl)
