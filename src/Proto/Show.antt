-- ===== src/Proto/Show.antt =====
-- libs/proto/overlay_proto.cc and libs/core/types.h: the texts of frames and messages in builds for
-- debugging; others have empty texts. `std::to_string` is a parameter.
pub mod Rows
use Prim.Native.String.{String, ◌++◌}
use dmx_enttec_node.Prelude.{ℕ, zero, suc, ◌+◌, List, get_elem?, Option, none, some}
use dmx_enttec_node.Proto.{DmxOverlay, OverlayMessage}

module _ {A : Type 0} (print : A → String) where
  -- `if (index < …) s += …;`, for an index that is not negative
  abbrev pub print_element : Option A → String → String
  print_element none s = s
  print_element (some x) s = s ++ print x

  -- The loop over the `n` columns of a row, from `index` on
  unfoldable pub print_row : ℕ → ℕ → List A → String → String
  print_row zero index xs s = s
  print_row (suc n) index xs s = print_row n (suc index) xs (print_element (get_elem? xs index) s)

  -- The loop over the `n` rows, of `width` columns each
  unfoldable pub print_rows : ℕ → ℕ → ℕ → List A → String → String
  unfolding print_row
  print_rows zero width index xs s = s
  print_rows (suc n) width index xs s =
      print_rows n width (index + width) xs (print_row width index xs s ++ "\n")

module _ (to_string : ℕ → String) where
  -- HexToString, whose numbers are decimal
  unfoldable pub hex_to_string : List ℕ → String
  unfolding print_rows
  hex_to_string span = print_rows (λ b. to_string b ++ " ") 10 55 0 span "\n"

  -- ToString of the overlays
  unfoldable pub overlays_to_string : List DmxOverlay → String
  unfolding print_rows
  overlays_to_string overlays =
      print_rows (λ o. ((to_string o.start ++ "-") ++ to_string o.length) ++ ", ") 5 20 0 overlays
        "\n"

  -- ToString of a message
  unfoldable pub message_to_string : OverlayMessage → String
  unfolding hex_to_string overlays_to_string
  message_to_string msg =
      let s : String = "OverlayMessage[\n" in
      let s = s ++ (("  protocol_id=" ++ to_string msg.protocol_id) ++ ", \n") in
      let s = s ++ (("  universe=" ++ to_string msg.universe) ++ ", \n") in
      let s = s ++ (("  num_overlays=" ++ to_string msg.num_overlays) ++ ", \n") in
      let s = s ++ ("  overlays=" ++ overlays_to_string msg.overlays) in
      let s = s ++ ("  dmx_data=" ++ hex_to_string msg.dmx_data) in s ++ "]"
