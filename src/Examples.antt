-- ===== src/Examples.antt =====
-- Concrete runs of the theorems: two hosts, an edge between them, and their producers.
pub mod Sweeps
pub mod Keys
pub mod Indexes
pub mod Log
pub mod Walks
use toise.Change.Forgotten.{sweep-forgets}
use toise.Change.Liveness.{drop_lapsed, is_lapsed}
use toise.Model.Validate.{
  validate_relation, validate_relation_event, validate_key_values, validate_entity,
  validate_entity_event, validate_envelope,
}
use toise.Common.{
  str_eq, ◌+◌, all, if◌then◌else◌, ◌&&◌, ◌⊎◌, ◌≤◌, ℕ, ◌≡◌, refl, Bool, true, false, none, some,
  List, [], ◌∷◌, Str, codes, str_Eq, inl, inr, arith, length,
}
use toise.Store.{events_of, first_invalid, number_events, append, Store}
use toise.Change.Expiry.{sweep-atomic}
use toise.Change.Atomicity.{
  called, staged_events, run_batch-atomic, Untouched, observe_relation, observe_entity, run_calls,
  BatchCall,
}
use toise.Model.Value.{Runtime, KeyValue, string, int}
use toise.Projection.Reads.{lapsed, get_entity, snapshot_events}
use toise.Change.Buffer.{observe_relation_buffered-bounded}
use toise.Change.Relations.{max_pending_relations}
use toise.Change.Sweep.{tidy, orphaned, sweep, sweep_staged}
use toise.Change.Flush.{Followed}
use toise.Model.Entity.{
  compute_relation_id, Entity, Relation, entity_created, entity_deleted, relation_added,
}
use toise.Change.Alias.{new_identity_alias_index}
use toise.Projection.Graph.{Graph, new_with_tombstone_cap, replay}
use toise.Change.Engine.{Engine, run_batch}
use toise.Change.State.{EntityObservation, LiveRef, RelationObservation, Speakers}
use toise.Store.Laws.{is_valid_event, Grown, is_appended, append-Grown, append-succeeds}
use toise.Projection.Tombstones.{IsBounded, replay-IsBounded, new-IsBounded}
use toise.Common.Dict.{has, get}
use toise.Change.Reconcile.{observe_relation_buffered}
use toise.Common.Decimal.{itoa, pos}
use toise.Model.Event.{
  Event, EntityEvent, RelationEvent, of_entity, of_relation, source_unknown, schema_version,
}
use toise.Projection.Stored.{restart}

instance abbrev pub plain : Runtime
plain = record { sha256 = λ s. s; format_float = itoa; ulid = itoa }

abbrev pub name_is : Str → KeyValue
name_is s = record { key = codes "n"; value = string s }

abbrev pub host : Str → Str → Entity
host id name = record {
  id = id;
  type = codes "host";
  identity = name_is name ∷ [];
  attributes = [];
  schema_url = [];
}

abbrev pub web : Entity
web = host (codes "1") (codes "web")

abbrev pub db : Entity
db = host (codes "2") (codes "db")

abbrev pub created : Entity → Event
created e = of_entity (record {
  event_id = codes "e";
  change_type = entity_created;
  entity = e;
  event_time = 5;
  recorded_at = 7;
  commit_seq = 0;
  scope = [];
  schema_version = schema_version;
  changed_keys = [];
  delete_reason = [];
  delete_source = source_unknown;
})

abbrev pub deleted : Entity → Event
deleted e = of_entity (record {
  event_id = codes "d";
  change_type = entity_deleted;
  entity = e;
  event_time = 6;
  recorded_at = 8;
  commit_seq = 0;
  scope = [];
  schema_version = schema_version;
  changed_keys = [];
  delete_reason = [];
  delete_source = source_unknown;
})

abbrev pub edge : Relation
edge = record {
  id = codes "r";
  type = codes "depends_on";
  from = codes "1";
  to = codes "2";
  attributes = [];
  structural = false;
}

abbrev pub linked : Event
linked = of_relation (record {
  event_id = codes "l";
  change_type = relation_added;
  relation = edge;
  event_time = 5;
  recorded_at = 7;
  commit_seq = 0;
  scope = [];
  schema_version = schema_version;
  changed_keys = [];
  delete_source = source_unknown;
})

abbrev pub history : List Event
history = created web ∷ created db ∷ linked ∷ deleted db ∷ []

restart_example :
    let g = replay 9 (new_with_tombstone_cap 3) history in
    let r = replay 9 (new_with_tombstone_cap 1) (snapshot_events 10 0 g) in
    (get_entity r (codes "2")
      ≡ (if has g.deleted (codes "2") then none else get g.entities (codes "2"), false))
    × (get r.relations (codes "2") ≡ get g.relations (codes "2"))
restart_example = restart 9 10 0 3 1 history (codes "2")

replay-IsBounded_example : IsBounded (replay 9 (new_with_tombstone_cap 3) history)
replay-IsBounded_example = replay-IsBounded 9 history (new_with_tombstone_cap 3) (new-IsBounded 3)

abbrev pub empty_store : Store
empty_store = record { log = []; seq = 0; accept_unknown_types = true; marshals = λ ev. true }

append-succeeds_example :
    is_appended (append true empty_store history) ≡ true && all (is_valid_event empty_store) history
append-succeeds_example =
    append-succeeds true empty_store (created web) (created db ∷ linked ∷ deleted db ∷ [])

abbrev pub entries : List (ℕ × Event)
entries = number_events 1 0 (created web ∷ linked ∷ [])

append-Grown_example :
    Grown empty_store
      (record empty_store { log = entries; seq = 2 })
      (created web ∷ linked ∷ [])
      (events_of entries)
unfolding append first_invalid validate_envelope validate_entity_event str_eq validate_entity
    validate_key_values validate_relation_event validate_relation
append-Grown_example =
    append-Grown true empty_store (record empty_store { log = entries; seq = 2 })
      (created web ∷ linked ∷ []) (events_of entries) (omega arith) refl

abbrev pub nobody : Engine
nobody = record {
  graph = new_with_tombstone_cap 3;
  store = empty_store;
  disk = [];
  bad_promises = [];
  buffer_ttl = 30;
  pending = [];
  pending_hashes = [];
  refs = [];
  rel_refs = [];
  aliases = new_identity_alias_index;
  staged = none;
  minted = 0;
  notified = [];
  discards = [];
  conflicts = [];
}

abbrev pub seen_host : Str → EntityObservation
seen_host name = record {
  type = codes "host";
  identity = name_is name ∷ [];
  attributes = [];
  schema_url = [];
  event_time = 5;
  interval = 60;
  producer = codes "agent";
  delete_reason = [];
}

abbrev pub seen_edge : RelationObservation
seen_edge = record {
  type = codes "depends_on";
  from = record { type = codes "host"; identity = name_is (codes "web") ∷ [] };
  to = record { type = codes "host"; identity = name_is (codes "db") ∷ [] };
  attributes = [];
  event_time = 5;
  producer = codes "agent";
  interval = 0;
  source_interval = 60;
}

abbrev pub calls : List BatchCall
calls =
    observe_entity (seen_host (codes "web"))
    ∷ observe_relation seen_edge
    ∷ observe_entity (seen_host (codes "db"))
    ∷ []

run_batch-atomic_example :
    let r = run_batch 9 (run_calls 9 calls) nobody in
    ((r.1 ≡ true)
      × ((out : List Event) × Followed 9 nobody r.0 (staged_events (called 9 calls nobody)) out))
    ⊎ ((r.1 ≡ false) × Untouched nobody r.0)
run_batch-atomic_example = run_batch-atomic 9 calls nobody (omega arith)

observe_relation_buffered-bounded_example :
    length (observe_relation_buffered 9 seen_edge nobody).0.pending ≤ max_pending_relations
observe_relation_buffered-bounded_example =
    observe_relation_buffered-bounded 9 seen_edge nobody (omega arith)

abbrev pub at : ℕ → LiveRef
at deadline = record { deadline = deadline; interval = 60; legacy = false }

abbrev pub speakers : Speakers
speakers = (codes "agent", at 4) ∷ (codes "scanner", at 20) ∷ []

abbrev pub asserted : Engine
asserted = record nobody {
  graph = replay 9 (new_with_tombstone_cap 3) (created db ∷ linked ∷ created web ∷ []);
  refs = (codes "1", speakers) ∷ (codes "2", (codes "agent", at 4) ∷ []) ∷ [];
  rel_refs = (compute_relation_id (codes "depends_on") (codes "1") (codes "2"), speakers) ∷ [];
}

sweep-atomic_example :
    let r = sweep 9 asserted in
    let passes = sweep_staged 9 asserted in
    ((flushed : Engine) × (out : List Event) × Followed 9 asserted flushed
        (staged_events passes.0)
        out
      × (r.0 ≡ tidy 9 flushed)
      × (r.1 ≡ passes.1)
      × (r.2 ≡ passes.2))
    ⊎ ((flushed : Engine) × Untouched asserted flushed
        × (r.0 ≡ tidy 9 flushed)
        × (r.1.entities + r.1.relations ≡ 0)
        × (r.2 ≡ false))
sweep-atomic_example = sweep-atomic 9 asserted (omega arith)

abbrev failing : Engine
failing = record asserted { disk = false ∷ [] }

sweep-forgets_example : get (sweep 9 failing).0.refs (codes "2") ≡ none
unfolding orphaned drop_lapsed get str_eq
sweep-forgets_example = sweep-forgets 9 failing (codes "2") refl
