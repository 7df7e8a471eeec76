-- ===== src/Store.antt =====
-- internal/store/store.go and snapshot_store.go: the append-only log with its sequence numbers.
-- Pebble is a parameter: whether a batch commit succeeds is an argument. So is proto.Marshal: the
-- field `marshals` says of which events it gives no error. The secondary indexes
-- hold nothing that the primary keys do not; Index.antt has their entries.
pub mod Laws
pub mod Keys
pub mod Snapshot
pub mod Retention
pub mod Coalesce
pub mod Index
use toise.Common.{
  ℕ, suc, ◌+◌, Bool, true, false, Option, none, some, List, [], ◌∷◌, ◌++◌, if◌then◌else◌, not, ltb,
  map, keep, length,
}
use toise.Model.Event.{Event, EntityEvent, RelationEvent}
use toise.Model.Validate.{Error, validate_envelope}

pub record Store : Type 0 where
  pub log : List (ℕ × Event)
  pub seq : ℕ
  pub accept_unknown_types : Bool
  pub marshals : Event → Bool

pub data AppendError : Type 0 where
  invalid_event : ℕ → Error → AppendError
  unmarshalable : ℕ → AppendError
  commit_failed : AppendError

-- The store after the append and the stamped events, which the caller sees too.
pub data Appended : Type 0 where
  appended : Store → List Event → Appended
  refused : AppendError → Appended

stamp_parts : ℕ → Event → Option EntityEvent → Option RelationEvent → Event
stamp_parts seq ev (some ee) re = record ev { entity = some (record ee { commit_seq = seq }) }
stamp_parts seq ev none (some re) = record ev { relation = some (record re { commit_seq = seq }) }
stamp_parts seq ev none none = ev

unfoldable pub stamp : ℕ → Event → Event
unfolding stamp_parts
stamp seq ev = stamp_parts seq ev ev.entity ev.relation

-- Whether proto.Marshal accepts the event as the next append stamps it.
abbrev pub encodes : Store → Event → Bool
encodes s ev = s.marshals (stamp (suc s.seq) ev)

-- The first event that does not validate or that proto.Marshal refuses, with its index.
unfoldable pub first_invalid : (Event → Bool) → Bool → ℕ → List Event → Option AppendError
first_invalid encoded vocabulary i [] = none
first_invalid encoded vocabulary i (ev ∷ evs) =
    let rest = first_invalid encoded vocabulary (suc i) evs in
    elim (validate_envelope vocabulary ev) [
      | none ↦ if encoded ev then rest else some (unmarshalable i)
      | some e ↦ some (invalid_event i e)
    ]

-- Every event of one append carries the sequence of the append's first event.
unfoldable pub number_events : ℕ → ℕ → List Event → List (ℕ × Event)
unfolding stamp
number_events commit_seq seq [] = []
number_events commit_seq seq (ev ∷ evs) =
    (suc seq, stamp commit_seq ev) ∷ number_events commit_seq (suc seq) evs

abbrev pub events_of : List (ℕ × Event) → List Event
events_of log = map (λ entry. entry.1) log

write : Bool → Store → List Event → Appended
unfolding number_events
write false s evs = refused commit_failed
write true s evs =
    let new = number_events (suc s.seq) s.seq evs in
    appended (record s { log = s.log ++ new; seq = s.seq + length evs }) (events_of new)

-- `disk` says whether the batch commit succeeds.
unfoldable pub append : Bool → Store → List Event → Appended
unfolding first_invalid write
append disk s [] = appended s []
append disk s (ev ∷ evs) =
    elim (first_invalid (encodes s) (not s.accept_unknown_types) 0 (ev ∷ evs)) [
      | none ↦ write disk s (ev ∷ evs)
      | some e ↦ refused e
    ]

-- ScanFrom: the entries past a sequence.
unfoldable pub scan_from : Store → ℕ → List (ℕ × Event)
scan_from s after = keep (λ entry. ltb after entry.0) s.log
