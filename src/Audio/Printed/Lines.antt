-- ===== src/Audio/Printed/Lines.antt =====
-- The lines of a device whose layouts have the channels that they count.
use Prim.Native.String.{String}
use dmx_enttec_node.Prelude.{
  ℕ, zero, suc, ◌-◌, ◌≤◌, ◌<◌, Bool, true, false, if◌then◌else◌, ltb, List, [], ◌∷◌, ◌++◌, map,
  take, length, ◌≡◌, refl, ap, ◌∙◌, Option, none, some, ok, arith, Bool-cases, inl, inr,
}
use dmx_enttec_node.Audio.Printed.{
  SoundIoChannelLayout, SoundIoDevice, Texts, is_zero_int, joined, print_channels,
  print_channel_layout, print_layouts, print_current_layout, print_rates, print_details,
  print_summary, print_device,
}

-- Each of the channels that a layout without a name counts is there, and there is one.
abbrev HasChannels : Option String → ℕ → List ℕ → Type 0
HasChannels none n channels = (0 < n) × (n ≤ length channels)
HasChannels (some name) n channels = Unit

abbrev IsReadable : SoundIoChannelLayout → Type 0
IsReadable layout = HasChannels layout.name layout.channel_count layout.channels

abbrev AreReadable : List SoundIoChannelLayout → Type 0
AreReadable [] = Unit {0}
AreReadable (layout ∷ layouts) = IsReadable layout × AreReadable layouts

module _ {D : Type 0} (text : Texts D) where
  abbrev names : Option String → ℕ → List ℕ → List String
  names none n channels = map text.channel_name (take n channels)
  names (some name) n channels = name ∷ []

  abbrev layout_names : SoundIoChannelLayout → List String
  layout_names layout = names layout.name layout.channel_count layout.channels

  abbrev listing : List SoundIoChannelLayout → List String
  listing [] = []
  listing (layout ∷ layouts) = "    " ∷ layout_names layout ++ "" ∷ listing layouts

  abbrev current_listing : SoundIoChannelLayout → List String
  current_listing layout =
      if ltb 0 layout.channel_count
      then "  current layout: " ∷ layout_names layout ++ "" ∷ []
      else []

  print_channels-suc :
      (n i channel : ℕ) (channels : List ℕ)
      → print_channels text n (suc i) (channel ∷ channels) ≡ print_channels text n i channels
  unfolding print_channels
  print_channels-suc zero i channel channels = refl
  print_channels-suc (suc n) i channel channels =
      rw (print_channels-suc n (suc i) channel channels) refl

  -- The loop over the channels logs the names of those from its start on.
  print_channels-take :
      (n : ℕ) (channels : List ℕ)
      → n ≤ length channels
      → print_channels text n 0 channels ≡ ok (map text.channel_name (take n channels))
  unfolding print_channels
  print_channels-take zero channels h = refl
  print_channels-take (suc n) [] h = absurd (omega arith)
  print_channels-take (suc n) (channel ∷ channels) h =
      rw (print_channels-suc n 0 channel channels, print_channels-take n channels (omega arith))
        refl

  layout_cases :
      (name : Option String) (n : ℕ) (channels : List ℕ)
      → HasChannels name n channels
      → print_channel_layout text (record { name = name; channel_count = n; channels = channels })
        ≡ ok (names name n channels)
  unfolding print_channel_layout
  layout_cases (some name) n channels h = refl
  layout_cases none zero channels h = absurd (omega (arith, h.0))
  layout_cases none (suc n) [] h = absurd (omega (arith, h.1))
  layout_cases none (suc n) (channel ∷ channels) h =
      let rest : print_channels text (suc n - 1) 1 (channel ∷ channels)
          ≡ ok (map text.channel_name (take n channels)) =
        ap (λ k. print_channels text k 1 (channel ∷ channels)) (omega arith)
        ∙ print_channels-suc n 0 channel channels
        ∙ print_channels-take n channels (omega (arith, h.1)) in
      rw (rest, print_channel_layout) refl

  -- Of a layout, its name is logged or those of its channels.
  print_channel_layout-names :
      (layout : SoundIoChannelLayout)
      → IsReadable layout
      → print_channel_layout text layout ≡ ok (layout_names layout)
  print_channel_layout-names layout h =
      layout_cases layout.name layout.channel_count layout.channels h

  print_layouts-listing :
      (layouts : List SoundIoChannelLayout)
      → AreReadable layouts
      → print_layouts text layouts ≡ ok (listing layouts)
  unfolding print_layouts
  print_layouts-listing [] h = refl
  print_layouts-listing (layout ∷ layouts) (h, hs) =
      rw (print_channel_layout-names layout h, print_layouts-listing layouts hs) refl

  print_current_layout-listing :
      (layout : SoundIoChannelLayout)
      → (0 < layout.channel_count → IsReadable layout)
      → print_current_layout text layout ≡ ok (current_listing layout)
  unfolding print_current_layout
  print_current_layout-listing layout h = elim (Bool-cases (ltb 0 layout.channel_count)) [
    | inl e ↦ rw (e) (rw (print_channel_layout-names layout (h (ground (arith, e)))) refl)
    | inr e ↦ rw (e) refl
  ]

  -- A verbose log of a device that has been probed without an error, and whose layouts have the
  -- channels that they count, is its summary, its layouts, its current layout if that has a
  -- channel, what follows from the sample rates on, and an empty line.
  print_device-listing :
      (device : SoundIoDevice D) (is_default : Bool)
      → AreReadable device.layouts
      → (0 < device.current_layout.channel_count → IsReadable device.current_layout)
      → is_zero_int device.probe_error ≡ true
      → print_device text device is_default true
        ≡ ok (
            print_summary text device is_default
              ∷ ("  channel layouts:" ∷ listing device.layouts
                  ++ (current_listing device.current_layout ++ print_rates text device))
            ++ "" ∷ [])
  unfolding print_device print_details
  print_device-listing device is_default hs h e =
      rw
        (
          e,
          print_layouts-listing device.layouts hs,
          print_current_layout-listing device.current_layout h,
        )
        refl

  -- After an error of the probe, only that error stands between the summary and an empty line, and a
  -- log that is not verbose is the summary.
  print_device-short :
      (device : SoundIoDevice D) (is_default : Bool)
      → is_zero_int device.probe_error ≡ false
      → (print_device text device is_default false ≡ ok (print_summary text device is_default ∷ []))
        × (print_device text device is_default true
            ≡ ok (
                print_summary text device is_default
                ∷ joined ("  probe error: " ∷ text.strerror device.probe_error ∷ [])
                ∷ ""
                ∷ []))
  unfolding print_device print_details
  print_device-short device is_default e = (refl, rw (e) refl)
