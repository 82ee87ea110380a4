-- ===== src/Audio/Playback/Played.antt =====
-- What the loops of WriteCallback play.
use native.Mathlib.Nat.{mul-le-mul_right}
use dmx_enttec_node.Prelude.{
  ℕ, zero, suc, ◌+◌, ◌-◌, ◌*◌, ◌≤◌, ◌<◌, List, [], ◌++◌, length, take, drop, replicate, ◌≡◌, refl,
  sym, ap, given, ◌∙◌, append_assoc, append-nil, length-drop, take-add, replicate-add, false, ◌==◌,
  some, Result, ok, throw, fault, begin_write_failed, end_write_failed, Bool-cases, inl, inr, ◌⊎◌,
  arith,
}
use dmx_enttec_node.Audio.Playback.{Store, SoundIoOutStream, Player, write_loop, zero_loop}
use dmx_enttec_node.Audio.Playback.Stored.{
  stored, stored-append, IsOutStream, write_frames-stored, zero_frames-stored,
}
use dmx_enttec_node.Audio.Playback.Areas.{frame_addresses, addresses, addresses-append, zero_mul}

add_mul : (a b k : ℕ) → (a + b) * k ≡ a * k + b * k
add_mul a b k = omega arith

pub sub_mul : (a b k : ℕ) → a ≤ b → a * k + (b - a) * k ≡ b * k
sub_mul a b k h = sym (add_mul a (b - a) k) ∙ ap (λ n. n * k) (omega arith)

pub is_positive : (m : ℕ) → (m == 0) ≡ false → 0 < m
is_positive m e = ground (arith, e)

module _ {Stream : Type 0} (os : SoundIoOutStream Stream) where
  -- `Grants left s written placed s'`: of `left` frames, the stream has granted `written`, block by
  -- block, whose samples have these addresses, and ends as `s'`: all of them, or those before a call
  -- to which it grants none.
  pub data Grants : ℕ → Stream → ℕ → List ℕ → Stream → Type 0 where
    full : (s : Stream) → Grants 0 s 0 [] s
    dry :
        (left : ℕ) (s : Stream)
        → 0 < left
        → (os.begin_write left s).frame_count ≡ 0
        → Grants left s 0 [] (os.begin_write left s).stream
    more :
        (left : ℕ) (s s' : Stream) (written : ℕ) (placed : List ℕ)
        → 0 < (os.begin_write left s).frame_count
        → Grants
            (left - (os.begin_write left s).frame_count)
            (os.end_write (os.begin_write left s).stream).1
            written
            placed
            s'
        → Grants left s
            ((os.begin_write left s).frame_count + written)
            (frame_addresses 0 (os.begin_write left s).frame_count (os.begin_write left s).areas
              ++ placed)
            s'

  -- The frames that the stream has granted of `left` have been played, with these bytes, at the
  -- addresses of their samples.
  pub record IsPlayed (left : ℕ) (bytes : ℕ → List ℕ) (p p' : Player Stream) : Type 0 where
    pub written : ℕ
    pub placed : List ℕ
    pub written_le : written ≤ left
    pub granted : Grants left p.stream written placed p'.stream
    pub stored_bytes : stored p'.stores ≡ stored p.stores ++ bytes written
    pub stored_addresses : addresses p'.stores ≡ addresses p.stores ++ placed

  abbrev pub Plays : ℕ → (ℕ → List ℕ) → Player Stream → Result (Player Stream) → Type 0
  Plays left bytes p fault = ⊥
  Plays left bytes p (throw e) = (e ≡ begin_write_failed) ⊎ (e ≡ end_write_failed)
  Plays left bytes p (ok p') = IsPlayed left bytes p p'

  -- What is played after a first grant
  Plays-after :
      (left : ℕ) (bytes bytes' : ℕ → List ℕ) (p : Player Stream) (stores : List Store)
      (r : Result (Player Stream))
      → let begun = os.begin_write left p.stream in
        let m = begun.frame_count in
        m ≤ left
        → 0 < m
        → stored stores ≡ bytes m
        → addresses stores ≡ frame_addresses 0 m begun.areas
        → ((k : ℕ) → bytes m ++ bytes' k ≡ bytes (m + k))
        → Plays
            (left - m)
            bytes'
            (record { stream = (os.end_write begun.stream).1; stores = p.stores ++ stores })
            r
        → Plays left bytes p r
  Plays-after left bytes bytes' p stores fault le pos_ here placed_here next h = h
  Plays-after left bytes bytes' p stores (throw e) le pos_ here placed_here next h = h
  Plays-after left bytes bytes' p stores (ok p') le pos_ here placed_here next h =
      let begun = os.begin_write left p.stream in
      let m = begun.frame_count in
      record {
        written = m + h.written;
        placed = frame_addresses 0 m begun.areas ++ h.placed;
        written_le = omega (arith, h.written_le);
        granted = more left p.stream p'.stream h.written h.placed pos_ h.granted;
        stored_bytes =
            h.stored_bytes
            ∙ rw
                (
                  stored-append p.stores stores,
                  here,
                  append_assoc (stored p.stores) (bytes m) (bytes' h.written),
                  next h.written,
                )
                refl;
        stored_addresses =
            h.stored_addresses
            ∙ rw
                (
                  addresses-append p.stores stores,
                  placed_here,
                  append_assoc (addresses p.stores) (frame_addresses 0 m begun.areas) h.placed,
                )
                refl;
      }

  module _ (io : IsOutStream os) where
    nothing :
        (left : ℕ) (bytes : ℕ → List ℕ) (p : Player Stream) (s : Stream)
        → bytes 0 ≡ []
        → Grants left p.stream 0 [] s
        → Plays left bytes p (ok (record p { stream = s }))
    nothing left bytes p s none_ granted = record {
      written = 0;
      placed = [];
      written_le = omega arith;
      granted = granted;
      stored_bytes = sym (ap (λ ys. stored p.stores ++ ys) none_ ∙ append-nil (stored p.stores));
      stored_addresses = sym (append-nil (addresses p.stores));
    }

    pub write_loop-Plays :
        (fuel left : ℕ) (src : List ℕ) (p : Player Stream)
        → left ≤ fuel
        → left * os.bytes_per_frame ≤ length src
        → (r : Result (Player Stream)) × (write_loop os fuel left src p ≡ some r)
          × Plays left (λ k. take (k * os.bytes_per_frame) src) p r
    unfolding write_loop
    write_loop-Plays fuel zero src p hf hs =
        (ok p, refl, nothing 0 _ p p.stream (rw (zero_mul os.bytes_per_frame) refl) (full p.stream))
    write_loop-Plays zero (suc left) src p hf hs = absurd (omega arith)
    write_loop-Plays (suc fuel) (suc left) src p hf hs =
        let begun = os.begin_write (suc left) p.stream in
        let m = begun.frame_count in
        let granted = io.granted (suc left) p.stream in
        let room = mul-le-mul_right os.bytes_per_frame granted in
        elim (Bool-cases (begun.err == 0)) [
          | inl e1 ↦ elim (Bool-cases (m == 0)) [
            | inl e2 ↦ (
              ok (record p { stream = begun.stream }),
              rw (e1, e2, write_loop) refl,
              nothing (suc left) _ p begun.stream (rw (zero_mul os.bytes_per_frame) refl)
                  (dry (suc left) p.stream (omega arith) (ground (arith, e2))),
            )
            | inr e2 ↦
                given
                  (write_frames-stored os io m begun.areas src (io.areas (suc left) p.stream)
                    (omega (arith, room)))
                  (λ (stores, e3, b, a). elim (Bool-cases ((os.end_write begun.stream).0 == 0)) [
                    | inl e4 ↦
                        given
                          (write_loop-Plays fuel (suc left - m) (drop (m * os.bytes_per_frame) src)
                            (record {
                              stream = (os.end_write begun.stream).1;
                              stores = p.stores ++ stores;
                            })
                            (omega (arith, granted, is_positive m e2, hf))
                            (omega (
                              arith,
                              length-drop (m * os.bytes_per_frame) src,
                              hs,
                              sub_mul m (suc left) os.bytes_per_frame granted,
                            )))
                          (λ (r, e5, played). (
                            r,
                            rw (e1, e2, e3, e4, write_loop) e5,
                            Plays-after (suc left) _ _ p stores r granted (is_positive m e2) b a
                                (λ k. sym (
                                  take-add (m * os.bytes_per_frame) (k * os.bytes_per_frame)
                                    ((m + k) * os.bytes_per_frame) src
                                    (add_mul m k os.bytes_per_frame)))
                                played,
                          ))
                    | inr e4 ↦
                        (throw end_write_failed, rw (e1, e2, e3, e4, write_loop) refl, inr refl)
                  ])
          ]
          | inr e1 ↦ (throw begin_write_failed, rw (e1, write_loop) refl, inl refl)
        ]

    pub zero_loop-Plays :
        (fuel left : ℕ) (p : Player Stream)
        → left ≤ fuel
        → (r : Result (Player Stream)) × (zero_loop os fuel left p ≡ some r)
          × Plays left (λ k. replicate (k * os.bytes_per_frame) 0) p r
    unfolding zero_loop
    zero_loop-Plays fuel zero p hf =
        (ok p, refl, nothing 0 _ p p.stream (rw (zero_mul os.bytes_per_frame) refl) (full p.stream))
    zero_loop-Plays zero (suc left) p hf = absurd (omega arith)
    zero_loop-Plays (suc fuel) (suc left) p hf =
        let begun = os.begin_write (suc left) p.stream in
        let m = begun.frame_count in
        let granted = io.granted (suc left) p.stream in
        elim (Bool-cases (begun.err == 0)) [
          | inl e1 ↦ elim (Bool-cases (m == 0)) [
            | inl e2 ↦ (
              ok (record p { stream = begun.stream }),
              rw (e1, e2, zero_loop) refl,
              nothing (suc left) _ p begun.stream (rw (zero_mul os.bytes_per_frame) refl)
                  (dry (suc left) p.stream (omega arith) (ground (arith, e2))),
            )
            | inr e2 ↦
                given (zero_frames-stored os io m begun.areas (io.areas (suc left) p.stream))
                  (λ (stores, e3, b, a). elim (Bool-cases ((os.end_write begun.stream).0 == 0)) [
                    | inl e4 ↦
                        given
                          (zero_loop-Plays fuel (suc left - m)
                            (record {
                              stream = (os.end_write begun.stream).1;
                              stores = p.stores ++ stores;
                            })
                            (omega (arith, granted, is_positive m e2, hf)))
                          (λ (r, e5, played). (
                            r,
                            rw (e1, e2, e3, e4, zero_loop) e5,
                            Plays-after (suc left) _ _ p stores r granted (is_positive m e2) b a
                                (λ k.
                                  replicate-add (m * os.bytes_per_frame) (k * os.bytes_per_frame) 0
                                  ∙ ap (λ n. replicate n 0) (sym (add_mul m k os.bytes_per_frame)))
                                played,
                          ))
                    | inr e4 ↦
                        (throw end_write_failed, rw (e1, e2, e3, e4, zero_loop) refl, inr refl)
                  ])
          ]
          | inr e1 ↦ (throw begin_write_failed, rw (e1, zero_loop) refl, inl refl)
        ]
