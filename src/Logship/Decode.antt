-- ===== src/Logship/Decode.antt =====
-- The framing of a segment in internal/logship/shipper.go reads back.
use toise.Common.{
  ℕ, zero, suc, ◌≤◌, false, ◌≡◌, refl, ap, ◌∙◌, List, [], ◌∷◌, ◌++◌, arith, ltb, length, Str,
  append_assoc, length-append, take-length_append, drop-length_append,
}
use toise.Model.Event.{Event}
use toise.Store.Keys.{decode_be}
use toise.Store.Keys.Window.{length-encode_be}
use toise.Store.Snapshot.{Codec, event_frames, encode_u32}
use toise.Store.Snapshot.RoundTrip.{Coded, AllCoded, decode-encode_u32, length-event_frames}
use toise.Logship.{Decoded, decoded, prepended, decode_record, decode_loop, decode_segment}

module _ ⦃codec : Codec⦄ where
  decode_record_lem :
      (loop : Str → Decoded) (ev : Event) (tail : Str)
      → Coded ev
      → decode_record loop (length (codec.marshal ev)) (codec.marshal ev ++ tail)
        ≡ prepended ev (loop tail)
  decode_record_lem loop ev tail c =
      let b = codec.marshal ev in
      let fits : ltb (length (b ++ tail)) (length b) ≡ false =
        ground (arith, length-append b tail) in
      rw (fits, take-length_append b tail, drop-length_append b tail, c.0) refl

  decode_loop_word :
      (f n : ℕ) (word rest : Str)
      → length word ≡ 4
      → decode_be 0 word ≡ n
      → decode_loop (suc f) (word ++ rest) ≡ decode_record (λ left. decode_loop f left) n rest
  unfolding decode_loop
  decode_loop_word f n (a ∷ b ∷ c ∷ d ∷ []) rest size e = ground (arith, e)
  decode_loop_word f n [] rest size e = absurd (omega arith)
  decode_loop_word f n (a ∷ []) rest size e = absurd (omega arith)
  decode_loop_word f n (a ∷ b ∷ []) rest size e = absurd (omega arith)
  decode_loop_word f n (a ∷ b ∷ c ∷ []) rest size e = absurd (omega arith)
  decode_loop_word f n (a ∷ b ∷ c ∷ d ∷ x ∷ w) rest size e = absurd (omega arith)

  decode_loop_written :
      (evs : List Event) (fuel : ℕ)
      → AllCoded evs
      → length evs ≤ fuel
      → decode_loop fuel (event_frames evs) ≡ decoded evs
  unfolding event_frames
  decode_loop_written [] fuel c f = unfold decode_loop in refl
  decode_loop_written (ev ∷ evs) zero c f = absurd (omega arith)
  decode_loop_written (ev ∷ evs) (suc fuel) c f =
      let b = codec.marshal ev in
      let word = encode_u32 (length b) in
      ap (decode_loop (suc fuel)) (append_assoc word b (event_frames evs))
      ∙ decode_loop_word fuel (length b) word (b ++ event_frames evs) (length-encode_be 4 _)
          (decode-encode_u32 (length b) (omega (arith, c.0.1)))
      ∙ decode_record_lem (λ left. decode_loop fuel left) ev (event_frames evs) c.0
      ∙ ap (prepended ev) (decode_loop_written evs fuel c.1 (omega (arith, f)))

  pub decode_segment_lem :
      (evs : List Event) → AllCoded evs → decode_segment (event_frames evs) ≡ decoded evs
  unfolding decode_segment
  decode_segment_lem evs c =
      decode_loop_written evs (length (event_frames evs)) c (length-event_frames evs)
