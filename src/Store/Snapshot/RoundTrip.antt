-- ===== src/Store/Snapshot/RoundTrip.antt =====
-- What WriteSnapshot stored, ReadSnapshot reads back.
use toise.Store.Keys.{encode_u64, decode_be}
use toise.Store.Snapshot.{
  Codec, Frames, frames, read_event, read_liveness, read_frames, read_snapshot, prepend, u32_mod,
  encode_u32, framed, event_frames, liveness_section, write_snapshot, snapshot, liveness_sentinel,
}
use toise.Store.Keys.Window.{length-encode_be, drop-append}
use toise.Store.Keys.Order.{decode_be-encode_be}
use toise.Common.{
  false, ℕ, zero, suc, ◌≡◌, refl, sym, ap, ◌∙◌, ◌≤◌, ◌<◌, ◌+◌, ◌%◌, ◌^◌, arith, Str, List, [], ◌∷◌,
  ◌++◌, length, drop, take, ltb, some, append_assoc, length-append, take-length_append,
  drop-length_append,
}
use toise.Model.Event.{Event}

pub take-front : (n : ℕ) (s t : Str) → length s ≡ n → take n (s ++ t) ≡ s
take-front n s t h = rw (sym h) (take-length_append s t)

drop-all : (s : Str) → drop (length s) s ≡ []
drop-all [] = refl
drop-all (b ∷ s) = drop-all s

take-all : (s : Str) → take (length s) s ≡ s
take-all [] = refl
take-all (b ∷ s) = ap (◌∷◌ b) (take-all s)

module _ ⦃codec : Codec⦄ where
  -- The bytes of an event decode to it, and there are fewer than 2 ^ 32 - 1 of them.
  abbrev pub Coded : Event → Type 0
  Coded ev =
      (codec.unmarshal (codec.marshal ev) ≡ some ev)
      × (length (codec.marshal ev) < liveness_sentinel)

  abbrev pub AllCoded : List Event → Type 0
  AllCoded [] = Unit
  AllCoded (ev ∷ evs) = Coded ev × AllCoded evs

  read_event_lem :
      (loop : Str → Frames) (ev : Event) (tail : Str)
      → Coded ev
      → length (codec.marshal ev ++ tail) < u32_mod
      → read_event loop (length (codec.marshal ev)) (codec.marshal ev ++ tail)
        ≡ prepend ev (loop tail)
  unfolding read_event
  read_event_lem loop ev tail c h =
      let b = codec.marshal ev in
      let fits : ltb (length (b ++ tail) % u32_mod) (length b) ≡ false =
        ground (arith, length-append b tail) in
      rw (fits, take-length_append b tail, drop-length_append b tail, c.0) refl

  read_frames_event :
      (f n : ℕ) (word rest blob : Str)
      → length word ≡ 4
      → decode_be 0 word ≡ n
      → n < liveness_sentinel
      → read_frames (suc f) (word ++ rest) blob
        ≡ read_event (λ left. read_frames f left blob) n rest
  unfolding read_frames
  read_frames_event f n (a ∷ b ∷ c ∷ d ∷ []) rest blob size e h = ground (arith, e)
  read_frames_event f n [] rest blob size e h = absurd (omega arith)
  read_frames_event f n (a ∷ []) rest blob size e h = absurd (omega arith)
  read_frames_event f n (a ∷ b ∷ []) rest blob size e h = absurd (omega arith)
  read_frames_event f n (a ∷ b ∷ c ∷ []) rest blob size e h = absurd (omega arith)
  read_frames_event f n (a ∷ b ∷ c ∷ d ∷ x ∷ w) rest blob size e h = absurd (omega arith)

  read_frames_section :
      (f : ℕ) (word rest blob : Str)
      → length word ≡ 4
      → decode_be 0 word ≡ liveness_sentinel
      → read_frames (suc f) (word ++ rest) blob
        ≡ read_liveness (λ left found. read_frames f left found) rest
  unfolding read_frames
  read_frames_section f (a ∷ b ∷ c ∷ d ∷ []) rest blob size e = ground (arith, e)
  read_frames_section f [] rest blob size e = absurd (omega arith)
  read_frames_section f (a ∷ []) rest blob size e = absurd (omega arith)
  read_frames_section f (a ∷ b ∷ []) rest blob size e = absurd (omega arith)
  read_frames_section f (a ∷ b ∷ c ∷ []) rest blob size e = absurd (omega arith)
  read_frames_section f (a ∷ b ∷ c ∷ d ∷ x ∷ w) rest blob size e = absurd (omega arith)

  pub decode-encode_u32 : (n : ℕ) → n < u32_mod → decode_be 0 (encode_u32 n) ≡ n
  decode-encode_u32 n h = decode_be-encode_be 4 (n % u32_mod) 0 (omega arith) ∙ omega arith

  -- A section whose blob fits is read whole, and the loop ends behind it.
  read_liveness_lem :
      (f : ℕ) (x : ℕ) (blob : Str)
      → length (x ∷ blob) < u32_mod
      → read_liveness (λ left found. read_frames f left found) (framed (x ∷ blob))
        ≡ frames [] (x ∷ blob)
  unfolding read_liveness read_frames
  read_liveness_lem f x blob h =
      let b = x ∷ blob in
      let word = encode_u32 (length b) in
      let size = length-encode_be 4 (length b % u32_mod) in
      let long : ltb (length (word ++ b)) 4 ≡ false = ground (arith, size, length-append word b) in
      let whole : ltb (length b % u32_mod) (length b) ≡ false = ground arith in
      rw
        (
          long,
          take-front 4 word b size,
          drop-append word b 4 size,
          decode-encode_u32 (length b) h,
          whole,
        )
        (ap (λ left. read_frames f left (take (length b) b)) (drop-all b)
          ∙ ap (frames []) (take-all b))

  framed_size : (b tail : Str) → length (framed b ++ tail) ≡ 4 + length (b ++ tail)
  framed_size b tail =
      let word = encode_u32 (length b) in
      ap length (append_assoc word b tail)
      ∙ length-append word (b ++ tail)
      ∙ ap (λ n. n + length (b ++ tail)) (length-encode_be 4 _)

  section_size : (x : ℕ) (blob : Str) → length (x ∷ blob) < length (liveness_section (x ∷ blob))
  unfolding liveness_section
  section_size x blob =
      let b = x ∷ blob in
      let sentinel = encode_u32 liveness_sentinel in
      let outer = length-append sentinel (framed b) in
      let inner = length-append (encode_u32 (length b)) b in
      let s = length-encode_be 4 (length b % u32_mod) in
      let t = length-encode_be 4 (liveness_sentinel % u32_mod) in omega (arith, outer, inner, s, t)

  -- What the loop reads of a snapshot, with a unit of fuel for each frame.
  read_frames_written :
      (evs : List Event) (fuel : ℕ) (blob : Str)
      → AllCoded evs
      → length (event_frames evs ++ liveness_section blob) < u32_mod
      → length evs < fuel
      → read_frames fuel (event_frames evs ++ liveness_section blob) [] ≡ frames evs blob
  unfolding event_frames liveness_section prepend
  read_frames_written evs zero blob c h f = absurd (omega arith)
  read_frames_written [] (suc fuel) [] c h f = unfold read_frames in refl
  read_frames_written [] (suc fuel) (x ∷ blob) c h f =
      read_frames_section fuel (encode_u32 liveness_sentinel) (framed (x ∷ blob)) []
        (length-encode_be 4 _) (decode-encode_u32 liveness_sentinel (omega arith))
      ∙ read_liveness_lem fuel x blob (omega (arith, section_size x blob, h))
  read_frames_written (ev ∷ evs) (suc fuel) blob c h f =
      let b = codec.marshal ev in
      let word = encode_u32 (length b) in
      let tail = event_frames evs ++ liveness_section blob in
      let whole =
        ap length (append_assoc (framed b) (event_frames evs) (liveness_section blob))
        ∙ framed_size b tail in
      let fits : length (b ++ tail) < u32_mod = omega (arith, whole, h) in
      let rest : length tail < u32_mod = omega (arith, length-append b tail, fits) in
      ap (λ s. read_frames (suc fuel) s [])
        (append_assoc (framed b) (event_frames evs) (liveness_section blob)
          ∙ append_assoc word b tail)
      ∙ read_frames_event fuel (length b) word (b ++ tail) [] (length-encode_be 4 _)
          (decode-encode_u32 (length b) (omega (arith, c.0.1))) c.0.1
      ∙ read_event_lem (λ left. read_frames fuel left []) ev tail c.0 (fits)
      ∙ ap (prepend ev) (read_frames_written evs fuel blob c.1 (rest) (omega arith))

  pub length-event_frames : (evs : List Event) → length evs ≤ length (event_frames evs)
  unfolding event_frames
  length-event_frames [] = omega arith
  length-event_frames (ev ∷ evs) =
      let n = framed_size (codec.marshal ev) (event_frames evs) in
      let m = length-append (codec.marshal ev) (event_frames evs) in
      omega (arith, n, m, length-event_frames evs)

  -- A snapshot of a log shorter than 2 ^ 32 bytes, under a seq below 2 ^ 64 and with events that
  -- the codec reads back, is read as what was written: the seq, the events in their order and
  -- the liveness blob.
  pub read_snapshot-write_snapshot :
      (seq : ℕ) (evs : List Event) (blob : Str)
      → seq < 2 ^ 64
      → AllCoded evs
      → length (event_frames evs ++ liveness_section blob) < u32_mod
      → read_snapshot (write_snapshot seq evs blob) ≡ snapshot seq evs blob
  unfolding read_snapshot write_snapshot encode_u64
  read_snapshot-write_snapshot seq evs blob s c h =
      let header = encode_u64 seq in
      let body = event_frames evs ++ liveness_section blob in
      let size : length header ≡ 8 = length-encode_be 8 seq in
      let total = length-append header body in
      let long : ltb (length (header ++ body)) 8 ≡ false = ground (arith, size, total) in
      let decoded : decode_be 0 header ≡ seq = decode_be-encode_be 8 seq 0 s ∙ omega arith in
      let enough : length evs < length (header ++ body) = omega (
        arith,
        size,
        total,
        length-event_frames evs,
        length-append (event_frames evs) (liveness_section blob),
      ) in
      let read = read_frames_written evs (length (header ++ body)) blob c h enough in
      rw (long, take-front 8 header body size, drop-append header body 8 size, decoded, read) refl
