-- ===== src/Store/Snapshot/Ends.antt =====
-- ReadSnapshot ends on every value.
use toise.Store.Snapshot.{
  and_then, liveness_sentinel, decode_be, with_seq, Event, Codec, Frames, frames, failed, stuck,
  read_event, read_liveness, read_frames, read_snapshot, endless, prepend, u32_mod,
}
use toise.Common.{
  Option, ℕ, zero, suc, ◌≡◌, ◌≤◌, ◌-◌, ◌%◌, arith, Str, [], ◌∷◌, length, drop, take, ltb, nat_eq,
  Bool-cases, inl, inr, none, some,
}
use mathlib.Core.Logic.{◌≢◌}

length-drop : (n : ℕ) (s : Str) → length (drop n s) ≡ length s - n
length-drop zero s = omega arith
length-drop (suc n) [] = omega arith
length-drop (suc n) (b ∷ s) = omega (arith, length-drop n s)

abbrev Ends : Frames → Type 0
Ends (frames evs blob) = Unit
Ends (failed e) = Unit
Ends stuck = ⊥

prepend-Ends : (ev : Event) (f : Frames) → Ends f → Ends (prepend ev f)
unfolding prepend
prepend-Ends ev (frames evs blob) h = tt
prepend-Ends ev (failed x) h = tt
prepend-Ends ev stuck h = h

module _ ⦃codec : Codec⦄ where
  and_then-Ends : (o : Option Event) (f : Frames) → Ends f → Ends (and_then o f)
  and_then-Ends none f h = tt
  and_then-Ends (some ev) f h = prepend-Ends ev f h

  read_event-Ends :
      (loop : Str → Frames) (n : ℕ) (rest : Str)
      → Ends (loop (drop n rest))
      → Ends (read_event loop n rest)
  unfolding read_event
  read_event-Ends loop n rest h = elim (Bool-cases (ltb (length rest % u32_mod) n)) [
    | inl q ↦ rw q tt
    | inr q ↦ rw q (and_then-Ends (codec.unmarshal (take n rest)) (loop (drop n rest)) h)
  ]

  read_liveness-Ends :
      (loop : Str → Str → Frames) (rest : Str)
      → ((left found : Str) → length left ≤ length rest → Ends (loop left found))
      → Ends (read_liveness loop rest)
  unfolding read_liveness
  read_liveness-Ends loop rest h =
      let body = drop 4 rest in
      let ln = decode_be 0 (take 4 rest) in
      elim (Bool-cases (ltb (length rest) 4)) [
        | inl q ↦ rw q tt
        | inr q ↦ elim (Bool-cases (ltb (length body % u32_mod) ln)) [
          | inl p ↦ rw (q, p) tt
          | inr p ↦
              rw (q, p)
                (h (drop ln body) (take ln body)
                  (omega (arith, length-drop ln body, length-drop 4 rest)))
        ]
      ]

  read_frames-Ends :
      (fuel : ℕ) (rest blob : Str) → length rest ≤ fuel → Ends (read_frames fuel rest blob)
  unfolding read_frames
  read_frames-Ends fuel [] blob h = tt
  read_frames-Ends zero (b ∷ rest) blob h = absurd (omega arith)
  read_frames-Ends (suc fuel) (b ∷ rest) blob h =
      let body = drop 4 (b ∷ rest) in
      let n = decode_be 0 (take 4 (b ∷ rest)) in
      elim (Bool-cases (ltb (length (b ∷ rest)) 4)) [
        | inl q ↦ rw q tt
        | inr q ↦ elim (Bool-cases (nat_eq n liveness_sentinel)) [
          | inl p ↦
              rw (q, p)
                (read_liveness-Ends (λ left found. read_frames fuel left found) body
                  (λ left found le.
                    read_frames-Ends fuel left found (omega (arith, length-drop 3 rest))))
          | inr p ↦
              rw (q, p)
                (read_event-Ends (λ left. read_frames fuel left blob) n body
                  (read_frames-Ends fuel (drop n body) blob
                    (omega (arith, length-drop n body, length-drop 3 rest))))
        ]
      ]

  with_seq-ne-endless : (seq : ℕ) (f : Frames) → Ends f → with_seq seq f ≢ endless
  with_seq-ne-endless seq (frames evs blob) h e = cc
  with_seq-ne-endless seq (failed x) h e = cc
  with_seq-ne-endless seq stuck h e = h

  -- ReadSnapshot ends on every stored value, well formed or not.
  pub read_snapshot-ne-endless : (bytes : Str) → read_snapshot bytes ≢ endless
  unfolding read_snapshot
  read_snapshot-ne-endless bytes = elim (Bool-cases (ltb (length bytes) 8)) [
    | inl q ↦ rw q (λ e. cc)
    | inr q ↦ rw q (
        with_seq-ne-endless (decode_be 0 (take 8 bytes))
          (read_frames (length bytes) (drop 8 bytes) [])
          (read_frames-Ends (length bytes) (drop 8 bytes) [] (omega (arith, length-drop 8 bytes))))
  ]
