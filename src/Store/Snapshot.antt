-- ===== src/Store/Snapshot.antt =====
-- The snapshot record of internal/store/snapshot_store.go: WriteSnapshot and ReadSnapshot. The
-- protobuf encoding of an event is a parameter. The file copies of Checkpoint are not modelled.
pub mod RoundTrip
pub mod Ends
use toise.Common.{
  ℕ, zero, suc, ◌+◌, ◌-◌, ◌%◌, ◌^◌, Bool, true, false, Option, none, some, List, [], ◌∷◌, ◌++◌,
  if◌then◌else◌, ltb, nat_eq, length, take, drop, is_empty, Str,
}
use toise.Model.Event.{Event}
use toise.Store.Keys.{encode_be, decode_be, encode_u64}

-- proto.Marshal of an event's message, and proto.Unmarshal with EventFromProto.
pub record Codec : Type 0 where
  pub marshal : Event → Str
  pub unmarshal : Str → Option Event

pub data SnapshotError : Type 0 where
  too_short truncated_length truncated_body bad_event : SnapshotError

-- The events and the liveness blob that the loop has read; `stuck` is a loop that has not ended.
pub data Frames : Type 0 where
  frames : List Event → Str → Frames
  failed : SnapshotError → Frames
  stuck : Frames

pub data ReadSnapshot : Type 0 where
  snapshot : ℕ → List Event → Str → ReadSnapshot
  broken : SnapshotError → ReadSnapshot
  endless : ReadSnapshot

abbrev pub liveness_sentinel : ℕ
liveness_sentinel = 0xffffffff

abbrev pub u32_mod : ℕ
u32_mod = 2 ^ 32

abbrev pub encode_u32 : ℕ → Str
encode_u32 n = encode_be 4 (n % u32_mod)

-- A length and the bytes.
abbrev pub framed : Str → Str
framed b = encode_u32 (length b) ++ b

unfoldable pub liveness_section : Str → Str
liveness_section [] = []
liveness_section (b ∷ blob) = encode_u32 liveness_sentinel ++ framed (b ∷ blob)

unfoldable pub prepend : Event → Frames → Frames
prepend ev (frames evs blob) = frames (ev ∷ evs) blob
prepend ev (failed e) = failed e
prepend ev stuck = stuck

module _ ⦃codec : Codec⦄ where
  unfoldable pub event_frames : List Event → Str
  event_frames [] = []
  event_frames (ev ∷ evs) = framed (codec.marshal ev) ++ event_frames evs

  -- The value that WriteSnapshot stores.
  unfoldable pub write_snapshot : ℕ → List Event → Str → Str
  unfolding event_frames liveness_section
  write_snapshot seq evs blob = encode_u64 seq ++ (event_frames evs ++ liveness_section blob)

  abbrev pub and_then : Option Event → Frames → Frames
  and_then none rest = failed bad_event
  and_then (some ev) rest = prepend ev rest

  -- One event of `n` bytes; `loop` goes on behind it. Lengths are compared as uint32.
  unfoldable pub read_event : (Str → Frames) → ℕ → Str → Frames
  unfolding prepend
  read_event loop n rest =
      let event = and_then (codec.unmarshal (take n rest)) (loop (drop n rest)) in
      if ltb (length rest % u32_mod) n then failed truncated_body else event

  -- The liveness section behind its sentinel; a truncated one is what is left of it.
  unfoldable pub read_liveness : (Str → Str → Frames) → Str → Frames
  read_liveness loop rest =
      let ln = decode_be 0 (take 4 rest) in
      let body = drop 4 rest in
      let whole = loop (drop ln body) (take ln body) in
      if ltb (length rest) 4
      then frames [] rest
      else if ltb (length body % u32_mod) ln
      then frames [] body
      else whole

  -- The loop, one frame for each unit of fuel.
  unfoldable pub read_frames : ℕ → Str → Str → Frames
  unfolding read_event read_liveness
  read_frames fuel [] blob = frames [] blob
  read_frames zero (b ∷ rest) blob = stuck
  read_frames (suc fuel) (b ∷ rest) blob =
      let n = decode_be 0 (take 4 (b ∷ rest)) in
      let body = drop 4 (b ∷ rest) in
      let section = read_liveness (λ left found. read_frames fuel left found) body in
      let event = read_event (λ left. read_frames fuel left blob) n body in
      if ltb (length (b ∷ rest)) 4
      then failed truncated_length
      else if nat_eq n liveness_sentinel
      then section
      else event

  abbrev pub with_seq : ℕ → Frames → ReadSnapshot
  with_seq seq (frames evs blob) = snapshot seq evs blob
  with_seq seq (failed e) = broken e
  with_seq seq stuck = endless

  unfoldable pub read_snapshot : Str → ReadSnapshot
  unfolding read_frames
  read_snapshot bytes =
      if ltb (length bytes) 8
      then broken too_short
      else with_seq (decode_be 0 (take 8 bytes)) (read_frames (length bytes) (drop 8 bytes) [])
