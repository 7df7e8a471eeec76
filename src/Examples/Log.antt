-- ===== src/Examples/Log.antt =====
-- Concrete runs of the theorems on the stored log: its keys, its snapshot, its pruning and its
-- export.
use toise.Store.Index.{read_back, index_event, event_keys, unix_nano, class_tag}
use toise.Store.Index.Trace.{index_event-event_keys, time_of_event}
use toise.Store.Coalesce.{coalesce_heartbeats, scan_entities, all_middles, middles}
use toise.Store.Coalesce.Laws.{coalesce_heartbeats-last, coalesce_heartbeats-In}
use toise.Common.{
  ℕ, true, false, ◌≡◌, ◌≢◌, refl, ◌++◌, List, [], ◌∷◌, some, none, codes, Str, arith, any, In, inl,
  inr, str_Eq, str_eq,
}
use toise.Examples.{plain, created, web, db, deleted}
use toise.Model.Event.{Event, of_entity, source_unknown, schema_version}
use toise.Store.{Store, scan_from, append, first_invalid, number_events, stamp}
use toise.Model.Validate.{
  validate_envelope, validate_entity_event, validate_entity, validate_key_values,
}
use toise.Model.Entity.{entity_attribute_updated, entity_unchanged, entity_created}
use toise.Store.Keys.{
  encode_be, prefix_upper_bound, entity_key, type_key, time_key, primary_key, encode_u64,
}
use toise.Store.Snapshot.{
  Codec, read_snapshot, write_snapshot, snapshot, endless, event_frames, liveness_section,
}
use toise.Store.Snapshot.RoundTrip.{read_snapshot-write_snapshot}
use toise.Store.Snapshot.Ends.{read_snapshot-ne-endless}
use toise.Store.Retention.{
  Retained, prune_older_than, Subject, the_entity, scan_lasts, note_last, kept, is_pruned,
  baselines, commit_prune, delete_seqs,
}
use toise.Store.Retention.Marks.{last_entry, Entry, is_old}
use toise.Store.Retention.Kept.{live, an_entity}
use toise.Store.Retention.Live.{
  prune_older_than-live, prune_older_than-covers, prune_older_than-recent,
}
use toise.Common.Dict.{get, put, remove}
use toise.Store.Retention.Entries.{Chronological-DeletedLast}
use toise.Store.Keys.Range.{in_range, has_prefix, in_range-prefix_upper_bound}
use toise.Logship.{segments, Shipper, put_done, put_landed, ship, replay, up_to}
use toise.Logship.Chain.{IsShipped, Segment, name_of}
use toise.Logship.Landing.{landed-IsShipped}
use toise.Logship.Ship.{Extended, ship-Extended, replay-ship, shipped_by}

-- Every event is written as one byte, and read as the creation of one host.
instance abbrev host_codec : Codec
host_codec = record { marshal = λ ev. 104 ∷ []; unmarshal = λ s. some (created web) }

read_snapshot-write_snapshot_example :
    read_snapshot (write_snapshot 7 (created web ∷ []) (codes "b"))
    ≡ snapshot 7 (created web ∷ []) (codes "b")
unfolding event_frames liveness_section encode_be
read_snapshot-write_snapshot_example =
    read_snapshot-write_snapshot 7 (created web ∷ []) (codes "b") (omega arith)
      ((refl, omega arith), tt) (omega arith)

read_snapshot-ne-endless_example : read_snapshot (codes "12345678901234") ≢ endless
read_snapshot-ne-endless_example = read_snapshot-ne-endless (codes "12345678901234")

abbrev log : List Entry
log = (1, created web) ∷ (2, created db) ∷ (3, deleted db) ∷ []

abbrev retained : Retained
retained = record {
  store = record { log = log; seq = 3; accept_unknown_types = true; marshals = λ ev. true };
  pruned_events = 0;
  pruned_bytes = 0;
  prune_horizon = 0;
}

abbrev fresh : Subject → Str
fresh s = codes "b"

abbrev one : Event → ℕ
one ev = 1

prune_older_than-live_example :
    live
      (the_entity (codes "1"))
      (prune_older_than (true, true) fresh one 9 log retained).0.store.log
    ≡ live (the_entity (codes "1")) log
prune_older_than-live_example =
    prune_older_than-live (true, true) fresh one 9 log [] retained (the_entity (codes "1")) refl
      (omega arith, (omega arith, (omega arith, omega arith)))
      (Chronological-DeletedLast (the_entity (codes "1")) log
        ((omega arith, (omega arith, tt)), ((omega arith, tt), (tt, tt))))
      refl

prune_older_than-covers_example :
    any
      (is_old 9 (the_entity (codes "1")))
      (prune_older_than (true, true) fresh one 9 log retained).0.store.log
    ≡ true
unfolding str_eq
prune_older_than-covers_example =
    prune_older_than-covers (true, true) fresh one 9 log [] retained (the_entity (codes "1"))
      (1, created web) refl (omega arith, (omega arith, (omega arith, omega arith))) refl refl refl

prune_older_than-recent_example :
    In (3, deleted db) (prune_older_than (true, true) fresh one 8 log retained).0.store.log
prune_older_than-recent_example =
    prune_older_than-recent (true, true) fresh one 8 log [] retained (3, deleted db) refl
      (omega arith, (omega arith, (omega arith, omega arith))) (inr (inr (inl refl))) (omega arith)

abbrev source : Store
source = record {
  log = (1, created web) ∷ (2, created web) ∷ (3, created web) ∷ [];
  seq = 3;
  accept_unknown_types = true;
  marshals = λ ev. true;
}

abbrev idle : Shipper
idle = record { objects = []; cursor = [] }

idle-IsShipped : IsShipped idle (codes "default") [] 0
unfolding segments get
idle-IsShipped = record { linked = refl; listed = refl; stored = tt; cached = tt }

ship-Extended_example :
    Extended
      (codes "default")
      []
      (shipped_by true put_landed (codes "default") idle (up_to 2 (scan_from source 0)))
      (ship true put_landed (codes "default") 2 source idle).0
unfolding up_to scan_from
ship-Extended_example =
    ship-Extended true put_landed (codes "default") 2 source idle [] 0 idle-IsShipped (omega arith)
      ((refl, omega arith), ((refl, omega arith), tt))

-- A sink with one segment, so that the next ship lists and replays two.
abbrev first_segment : Segment
first_segment = record { from = 0; to = 1; events = created web ∷ [] }

abbrev shipped_once : Shipper
shipped_once = record {
  objects =
      put idle.objects (name_of (codes "default") first_segment)
        (event_frames first_segment.events);
  cursor = [];
}

shipped_once-IsShipped : IsShipped shipped_once (codes "default") (first_segment ∷ []) 1
unfolding get
shipped_once-IsShipped =
    landed-IsShipped idle (codes "default") [] 0 first_segment [] idle-IsShipped refl (omega arith)
      (omega arith) ((refl, omega arith), tt) tt

replay-ship_example :
    (replay true
      (ship true put_done (codes "default") 3 source shipped_once).0
      (codes "default")).applied
    ≡ (replay true shipped_once (codes "default")).applied ++ up_to 3 (scan_from source 1)
unfolding up_to scan_from
replay-ship_example =
    replay-ship (codes "default") 3 source shipped_once (first_segment ∷ []) 1
      shipped_once-IsShipped (omega arith) ((refl, omega arith), ((refl, omega arith), tt))

in_range-prefix_upper_bound_example :
    in_range (codes "ent/") (prefix_upper_bound (codes "ent/")) (codes "ent/1")
    ≡ has_prefix (codes "ent/") (codes "ent/1")
in_range-prefix_upper_bound_example =
    in_range-prefix_upper_bound (codes "ent/") (codes "ent/1")
      (omega arith, (omega arith, (omega arith, (omega arith, tt))))
      (omega arith, (omega arith, (omega arith, (omega arith, (omega arith, tt)))))

-- A deletion that is appended while a prune runs is undone by the baseline behind it.
abbrev renewed : Event
renewed = of_entity (record {
  event_id = codes "u";
  change_type = entity_attribute_updated;
  entity = db;
  event_time = 10;
  recorded_at = 10;
  commit_seq = 0;
  scope = [];
  schema_version = schema_version;
  changed_keys = [];
  delete_reason = [];
  delete_source = source_unknown;
})

abbrev raced : Retained
raced = record retained {
  store = record {
    log = (1, created db) ∷ (2, renewed) ∷ (3, deleted db) ∷ [];
    seq = 3;
    accept_unknown_types = true;
    marshals = λ ev. true;
  };
}

deleted_before : live (the_entity (codes "2")) raced.store.log ≡ none
unfolding str_eq
deleted_before = refl

revived_by_prune :
    live
      (the_entity (codes "2"))
      (prune_older_than
        (true, true)
        fresh
        one
        9
        ((1, created db) ∷ (2, renewed) ∷ [])
        raced).0.store.log
    ≡ some (an_entity db)
unfolding str_eq prune_older_than append first_invalid validate_envelope validate_entity_event
    validate_entity validate_key_values number_events stamp scan_lasts note_last get put remove kept
    is_pruned baselines commit_prune delete_seqs
revived_by_prune = refl

-- An event at the Unix epoch, which is read back at the zero time: the key of its time entry is not
-- among those that a prune deletes.
abbrev at_epoch : Event
at_epoch = of_entity (record {
  event_id = codes "e";
  change_type = entity_created;
  entity = web;
  event_time = 62135596800000000000;
  recorded_at = 62135596800000000000;
  commit_seq = 0;
  scope = [];
  schema_version = schema_version;
  changed_keys = [];
  delete_reason = [];
  delete_source = source_unknown;
})

kept_at_epoch :
    any
      (str_eq (time_key (unix_nano (time_of_event at_epoch)) 7))
      (event_keys (read_back at_epoch) 7)
    ≡ false
unfolding event_keys time_key entity_key type_key primary_key str_eq encode_u64 encode_be
kept_at_epoch = refl

index_event-event_keys_example : In (type_key 1 7) (event_keys (read_back (created web)) 7)
unfolding index_event entity_key type_key time_key class_tag
index_event-event_keys_example =
    index_event-event_keys (created web) 7
      ((entity_key (codes "1") 7, [])
        ∷ (type_key 1 7, [])
        ∷ (time_key (unix_nano 5) 7, class_tag (created web) entity_created ∷ [])
        ∷ [])
      (type_key 1 7, []) refl refl (inr (inl refl))

-- Three heartbeats in a row.
abbrev beat : Event
beat = of_entity (record {
  event_id = codes "h";
  change_type = entity_unchanged;
  entity = web;
  event_time = 10;
  recorded_at = 10;
  commit_seq = 0;
  scope = [];
  schema_version = schema_version;
  changed_keys = [];
  delete_reason = [];
  delete_source = source_unknown;
})

abbrev beats : Store
beats = record {
  log = (1, created web) ∷ (2, beat) ∷ (3, beat) ∷ (4, beat) ∷ [];
  seq = 4;
  accept_unknown_types = true;
  marshals = λ ev. true;
}

coalesce_heartbeats-last_example :
    last_entry (the_entity (codes "1")) (coalesce_heartbeats true beats.log beats).0.log
    ≡ last_entry (the_entity (codes "1")) beats.log
coalesce_heartbeats-last_example =
    coalesce_heartbeats-last true beats.log [] beats (the_entity (codes "1")) refl
      (omega arith, (omega arith, (omega arith, (omega arith, omega arith))))

coalesce_heartbeats-In_example :
    In (1, created web) (coalesce_heartbeats true beats.log beats).0.log
coalesce_heartbeats-In_example =
    coalesce_heartbeats-In true beats.log [] beats (1, created web) refl
      (omega arith, (omega arith, (omega arith, (omega arith, omega arith)))) (inl refl) refl

-- The middle one of the three goes.
coalesced : (coalesce_heartbeats true beats.log beats).1 ≡ some 1
unfolding coalesce_heartbeats scan_entities all_middles middles get put remove str_eq
coalesced = refl
