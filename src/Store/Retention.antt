-- ===== src/Store/Retention.antt =====
-- internal/store/retention.go: PruneOlderThan. A map's entries are visited in some order; the fresh
-- event ids, the size of a stored value and the outcome of a disk commit are arguments.
pub mod Marks
pub mod Delete
pub mod Entries
pub mod Kept
pub mod Baselines
pub mod Live
use toise.Common.{
  ℕ, ◌+◌, Bool, ◌≡◌, ◌↔◌, str_eq_iff, arith, true, false, ◌&&◌, ◌||◌, not, Option, none, some, List,
  [], ◌∷◌, ◌++◌, if◌then◌else◌, ltb, leb, nat_eq, any, keep, map, length, is_empty, Str, ◌==◌, Eq,
  str_Eq, str_eq,
}
use toise.Common.Dict.{Dict, get, put}
use toise.Model.Entity.{Entity, Relation, ChangeType, entity_deleted, relation_removed}
use toise.Model.Event.{Event, EntityEvent, RelationEvent, Time, of_entity, of_relation}
use toise.Store.{Store, AppendError, Appended, appended, refused, append}

-- The entity or relation of an event: what it is about.
pub data Subject : Type 0 where
  the_entity the_relation : Str → Subject

abbrev pub same_subject : Subject → Subject → Bool
same_subject (the_entity a) (the_entity b) = str_eq a b
same_subject (the_relation a) (the_relation b) = str_eq a b
same_subject _ _ = false

abbrev pub subject_parts : Option EntityEvent → Option RelationEvent → Option Subject
subject_parts (some ee) re = some (the_entity ee.entity.id)
subject_parts none (some re) = some (the_relation re.relation.id)
subject_parts none none = none

abbrev pub subject : Event → Option Subject
subject ev = subject_parts ev.entity ev.relation

abbrev pub is_deletion : ChangeType → Bool
is_deletion entity_deleted = true
is_deletion _ = false

abbrev pub is_removal : ChangeType → Bool
is_removal relation_removed = true
is_removal _ = false

abbrev pub alive_parts : Option EntityEvent → Option RelationEvent → Bool
alive_parts (some ee) re = not (is_deletion ee.change_type)
alive_parts none (some re) = not (is_removal re.change_type)
alive_parts none none = false

-- A deletion as the last event means that its subject is not live.
abbrev pub is_alive : Event → Bool
is_alive ev = alive_parts ev.entity ev.relation

abbrev pub time_parts : Option EntityEvent → Option RelationEvent → Time
time_parts (some ee) re = ee.event_time
time_parts none (some re) = re.event_time
time_parts none none = 0

abbrev pub event_time_of : Event → Time
event_time_of ev = time_parts ev.entity ev.relation

abbrev pub recorded_parts : Option EntityEvent → Option RelationEvent → Time
recorded_parts (some ee) re = ee.recorded_at
recorded_parts none (some re) = re.recorded_at
recorded_parts none none = 0

abbrev pub recorded_at_of : Event → Time
recorded_at_of ev = recorded_parts ev.entity ev.relation

abbrev pub baseline_parts : Str → Time → Event → Option EntityEvent → Option RelationEvent → Event
baseline_parts id cutoff ev (some ee) re =
    of_entity
      (record ee { event_id = id; event_time = cutoff; recorded_at = cutoff; changed_keys = [] })
baseline_parts id cutoff ev none (some re) =
    of_relation
      (record re { event_id = id; event_time = cutoff; recorded_at = cutoff; changed_keys = [] })
baseline_parts id cutoff ev none none = ev

abbrev pub baseline_event : Str → Time → Event → Event
baseline_event id cutoff ev = baseline_parts id cutoff ev ev.entity ev.relation

-- The entry of entLast or relLast.
pub record Last : Type 0 where
  pub seq : ℕ
  pub alive : Bool
  pub event : Event
  pub nano : Time
  pub born_before : Bool

pub same_subject_lem : (s t : Subject) → (same_subject s t ≡ true) ↔ (s ≡ t)
same_subject_lem (the_entity a) (the_entity b) = ground (arith, str_eq_iff a b)
same_subject_lem (the_relation a) (the_relation b) = ground (arith, str_eq_iff a b)
same_subject_lem (the_entity a) (the_relation b) = (λ h. cc, λ h. cc)
same_subject_lem (the_relation a) (the_entity b) = (λ h. cc, λ h. cc)

instance abbrev pub subject_Eq : Eq Subject
subject_Eq = record { same = same_subject; decides = same_subject_lem }

-- The two maps in one, whose keys say whether an entity or a relation is meant.
abbrev pub Lasts : Type 0
Lasts = Dict Subject Last

abbrev pub was_born : Option Last → Bool
was_born none = false
was_born (some l) = l.born_before

abbrev pub last_at : Time → Option Last → ℕ × Event → Last
last_at cutoff before (seq, ev) = record {
  seq = seq;
  alive = is_alive ev;
  event = ev;
  nano = event_time_of ev;
  born_before = was_born before || leb (event_time_of ev) cutoff;
}

abbrev pub note_as : Time → Lasts → ℕ × Event → Option Subject → Lasts
note_as cutoff lasts entry none = lasts
note_as cutoff lasts entry (some s) = put lasts s (last_at cutoff (get lasts s) entry)

-- The step of the first pass.
unfoldable pub note_last : Time → Lasts → ℕ × Event → Lasts
note_last cutoff lasts entry = note_as cutoff lasts entry (subject entry.1)

unfoldable pub scan_lasts : Time → Lasts → List (ℕ × Event) → Lasts
scan_lasts cutoff lasts [] = lasts
scan_lasts cutoff lasts (entry ∷ log) = scan_lasts cutoff (note_last cutoff lasts entry) log

-- The keep set.
unfoldable pub kept : Lasts → ℕ → Bool
kept lasts seq = any (λ entry. entry.1.alive && nat_eq entry.1.seq seq) lasts

-- The test of the second pass: recorded before the cutoff, and not protected by the keep set.
unfoldable pub is_pruned : Time → Lasts → ℕ × Event → Bool
unfolding kept
is_pruned cutoff lasts (seq, ev) = not (kept lasts seq) && ltb (recorded_at_of ev) cutoff

abbrev pub needs_baseline : Time → Last → Bool
needs_baseline cutoff l = l.alive && (l.born_before && ltb cutoff l.nano)

-- The horizon baselines; `fresh` gives the new event ids.
unfoldable pub baselines : (Subject → Str) → Time → Lasts → List Event
baselines fresh cutoff [] = []
baselines fresh cutoff ((s, l) ∷ lasts) =
    let rest = baselines fresh cutoff lasts in
    if needs_baseline cutoff l then baseline_event (fresh s) cutoff l.event ∷ rest else rest

abbrev pub seqs_of : List (ℕ × Event) → List ℕ
seqs_of log = map (λ entry. entry.0) log

-- The batch of deletes, by key.
unfoldable pub delete_seqs : List ℕ → List (ℕ × Event) → List (ℕ × Event)
delete_seqs seqs log = keep (λ entry. not (any (nat_eq entry.0) seqs)) log

abbrev pub total_size : (Event → ℕ) → List (ℕ × Event) → ℕ
total_size size [] = 0
total_size size ((seq, ev) ∷ log) = size ev + total_size size log

pub record Retained : Type 0 where
  pub store : Store
  pub pruned_events : ℕ
  pub pruned_bytes : ℕ
  pub prune_horizon : Time

pub data PruneResult : Type 0 where
  pruned : ℕ → ℕ → PruneResult
  append_failed : AppendError → PruneResult
  prune_commit_failed : PruneResult

-- The deletes and the horizon in one batch, and the counters behind it.
unfoldable pub commit_prune :
    Bool → (Event → ℕ) → Time → List (ℕ × Event) → Retained → Retained × PruneResult
unfolding delete_seqs
commit_prune false size cutoff doomed r = (r, prune_commit_failed)
commit_prune true size cutoff doomed r = (
  record {
    store = record r.store { log = delete_seqs (seqs_of doomed) r.store.log };
    pruned_events = r.pruned_events + length doomed;
    pruned_bytes = r.pruned_bytes + total_size size doomed;
    prune_horizon = if ltb r.prune_horizon cutoff then cutoff else r.prune_horizon;
  },
  pruned (length doomed) (total_size size doomed),
)

abbrev pub after_baselines :
    Bool → (Event → ℕ) → Time → List (ℕ × Event) → Retained → Appended → Retained × PruneResult
after_baselines disk size cutoff doomed r (refused e) = (r, append_failed e)
after_baselines disk size cutoff doomed r (appended store out) =
    commit_prune disk size cutoff doomed (record r { store = store })

-- `snap` is the log of the database snapshot that both passes run on, `r` the state when they
-- have ended; the Booleans say whether the commits of the baselines and of the deletes succeed.
unfoldable pub prune_older_than :
    Bool × Bool
    → (Subject → Str)
    → (Event → ℕ)
    → Time
    → List (ℕ × Event)
    → Retained
    → Retained × PruneResult
unfolding is_pruned baselines commit_prune scan_lasts
prune_older_than disks fresh size cutoff snap r =
    let lasts = scan_lasts cutoff [] snap in
    let doomed = keep (is_pruned cutoff lasts) snap in
    let done = append disks.0 r.store (baselines fresh cutoff lasts) in
    if is_empty doomed then (r, pruned 0 0) else after_baselines disks.1 size cutoff doomed r done
