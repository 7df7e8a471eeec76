-- ===== src/Store/Coalesce.antt =====
-- internal/store/retention.go: CoalesceHeartbeats, on a snapshot of the log. A map's entries are
-- visited in some order; whether the batch of deletes commits is an argument.
pub mod Runs
pub mod Laws
use toise.Common.{
  ℕ, ◌+◌, Bool, true, false, ◌&&◌, Option, none, some, List, [], ◌∷◌, ◌++◌, if◌then◌else◌, nat_eq,
  map, length, Str, str_Eq,
}
use toise.Common.Dict.{Dict, get, put}
use toise.Model.Entity.{ChangeType, entity_unchanged}
use toise.Model.Event.{Event, EntityEvent, Time}
use toise.Store.{Store}
use toise.Store.Retention.{delete_seqs}

-- The record that the scan keeps of an entity's event.
pub record Rec : Type 0 where
  pub seq : ℕ
  pub change_type : ChangeType
  pub event_time : Time

abbrev pub is_heartbeat : ChangeType → Bool
is_heartbeat entity_unchanged = true
is_heartbeat _ = false

abbrev pub recs_of : Option (List Rec) → List Rec
recs_of none = []
recs_of (some recs) = recs

abbrev pub note_entity : Dict Str (List Rec) → ℕ → Option EntityEvent → Dict Str (List Rec)
note_entity per_entity seq none = per_entity
note_entity per_entity seq (some ee) = put per_entity ee.entity.id (
    recs_of (get per_entity ee.entity.id)
    ++ record { seq = seq; change_type = ee.change_type; event_time = ee.event_time } ∷ [])

unfoldable pub scan_entities : Dict Str (List Rec) → List (ℕ × Event) → Dict Str (List Rec)
scan_entities per_entity [] = per_entity
scan_entities per_entity ((seq, ev) ∷ log) =
    scan_entities (note_entity per_entity seq ev.entity) log

abbrev pub starts_with_heartbeat : List Rec → Bool
starts_with_heartbeat [] = false
starts_with_heartbeat (r ∷ recs) = is_heartbeat r.change_type

-- The records strictly inside the runs of heartbeats. The flag says that the record before is a
-- heartbeat: `k` is then past the run's first record, and past its last where none follows.
unfoldable pub middles : Bool → List Rec → List Rec
middles in_run [] = []
middles in_run (r ∷ recs) =
    let rest = middles (is_heartbeat r.change_type) recs in
    if is_heartbeat r.change_type && (in_run && starts_with_heartbeat recs) then r ∷ rest else rest

unfoldable pub all_middles : Dict Str (List Rec) → List Rec
unfolding middles
all_middles [] = []
all_middles ((id, recs) ∷ per_entity) = middles false recs ++ all_middles per_entity

abbrev pub seqs_of_recs : List Rec → List ℕ
seqs_of_recs recs = map (λ r. r.seq) recs

abbrev pub delete_recs : Bool → List Rec → Store → Store × Option ℕ
delete_recs disk [] s = (s, some 0)
delete_recs false (r ∷ recs) s = (s, none)
delete_recs true (r ∷ recs) s =
    (record s { log = delete_seqs (seqs_of_recs (r ∷ recs)) s.log }, some (length (r ∷ recs)))

-- The store and the number of records removed; none is a batch that did not commit.
unfoldable pub coalesce_heartbeats : Bool → List (ℕ × Event) → Store → Store × Option ℕ
unfolding scan_entities all_middles delete_seqs
coalesce_heartbeats disk snap s = delete_recs disk (all_middles (scan_entities [] snap)) s
