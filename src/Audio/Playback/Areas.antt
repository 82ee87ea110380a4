-- ===== src/Audio/Playback/Areas.antt =====
-- Where the samples of the channels are, from frame to frame.
use dmx_enttec_node.Prelude.{
  ℕ, zero, suc, ◌+◌, ◌*◌, List, [], ◌∷◌, ◌++◌, map, ◌≡◌, refl, ap, ap₂, arith,
}
use dmx_enttec_node.Audio.Playback.{SoundIoChannelArea, moved, Store}

-- The area of a channel after `f` frames
abbrev pub at_frame : ℕ → SoundIoChannelArea → SoundIoChannelArea
at_frame f area = record area { ptr = area.ptr + f * area.step }

pub moved-at_frame :
    (f : ℕ) (area : SoundIoChannelArea) → moved (at_frame f area) ≡ at_frame (suc f) area
moved-at_frame f area = ap (λ p. record area { ptr = p }) (omega arith)

pub map-at_frame_zero : (areas : List SoundIoChannelArea) → map (at_frame 0) areas ≡ areas
map-at_frame_zero [] = refl
map-at_frame_zero (area ∷ areas) =
    ap₂ ◌∷◌ (ap (λ p. record area { ptr = p }) (omega arith)) (map-at_frame_zero areas)

-- The addresses of the `f`-th frame's samples, one of each channel
abbrev pub channel_addresses : ℕ → List SoundIoChannelArea → List ℕ
channel_addresses f [] = []
channel_addresses f (area ∷ areas) = (area.ptr + f * area.step) ∷ channel_addresses f areas

-- Those of `m` frames from the `f`-th on
abbrev pub frame_addresses : ℕ → ℕ → List SoundIoChannelArea → List ℕ
frame_addresses f zero areas = []
frame_addresses f (suc m) areas = channel_addresses f areas ++ frame_addresses (suc f) m areas

-- The addresses that are stored to, in order
abbrev pub addresses : List Store → List ℕ
addresses [] = []
addresses (store ∷ stores) = store.address ∷ addresses stores

pub addresses-append : (s t : List Store) → addresses (s ++ t) ≡ addresses s ++ addresses t
addresses-append [] t = refl
addresses-append (x ∷ s) t = ap (λ ys. x.address ∷ ys) (addresses-append s t)

pub suc_mul : (n b : ℕ) → suc n * b ≡ b + n * b
suc_mul n b = omega arith

pub zero_mul : (b : ℕ) → 0 * b ≡ 0
zero_mul b = omega arith
