-- ===== src/Projection/Reads.antt =====
-- internal/projection/graph.go: the reads. A `range` over a map walks its entries in their order
-- here.
use toise.Common.{
  ℕ, zero, suc, ◌+◌, Bool, false, ◌&&◌, ◌||◌, not, Option, none, some, List, [], ◌∷◌, ◌++◌, map,
  keep, if◌then◌else◌, ltb, length, Str, ◌==◌, str_Eq,
}
use toise.Common.Dict.{Dict, get, put, has}
use toise.Model.Value.{Runtime, KeyValue, sort_by_key}
use toise.Model.Entity.{Entity, Relation, entity_created, relation_added, identity_hash}
use toise.Model.Event.{Event, Time, of_entity, of_relation, source_unknown, schema_version}
use toise.Projection.Graph.{Graph, Set, members}

-- The entity, whether it exists, and whether it is soft-deleted.
unfoldable pub get_entity : Graph → Str → Option Entity × Bool
get_entity g id = (get g.entities id, has g.deleted id)

unfoldable pub get_relation : Graph → Str → Option Relation
get_relation g id = get g.relations id

abbrev pub values {ℓ} : {V : Type ℓ} → Dict Str V → List V
values [] = []
values ((k, v) ∷ d) = v ∷ values d

-- The entries whose key is not soft-deleted.
abbrev pub live_entries {ℓ} : {V : Type ℓ} → Set → Dict Str V → Dict Str V
live_entries deleted d = keep (λ kv. not (has deleted kv.0)) d

unfoldable pub entity_count : Graph → ℕ
entity_count g = length (live_entries g.deleted g.entities)

unfoldable pub relation_count : Graph → ℕ
relation_count g = length g.relations

-- Types without a live entity are left out.
count_types : Set → Dict Str Set → Dict Str ℕ
count_types deleted [] = []
count_types deleted ((t, ids) ∷ d) =
    let n = length (live_entries deleted ids) in
    let rest = count_types deleted d in if ltb 0 n then (t, n) ∷ rest else rest

unfoldable pub count_by_type : Graph → Dict Str ℕ
unfolding count_types
count_by_type g = count_types g.deleted g.by_type

-- An empty filter matches all.
abbrev pub matches : Str → Str → Bool
matches wanted given = wanted == [] || given == wanted

abbrev pub sort_entities : List Entity → List Entity
sort_entities es = values (sort_by_key (map (λ e. (e.id, e)) es))

abbrev pub sort_relations : List Relation → List Relation
sort_relations rs = values (sort_by_key (map (λ r. (r.id, r)) rs))

unfoldable pub list_entities : Graph → Str → List Entity
unfolding sort_by_key
list_entities g typ =
    sort_entities (keep (λ e. matches typ e.type) (values (live_entries g.deleted g.entities)))

unfoldable pub list_relations : Graph → Str → Str → Str → List Relation
unfolding sort_by_key
list_relations g typ from to =
    sort_relations (
      keep (λ r. matches typ r.type && matches from r.from && matches to r.to) (values g.relations))

-- The closure `add` of RelationsTouching, on the ids seen and the edges found.
unfoldable pub touch_one : Graph → Str → Str → Set × List Relation → Set × List Relation
touch_one g rel_type rid (seen, out) =
    if has seen rid then (seen, out) else elim (get g.relations rid) [
      | none ↦ (seen, out)
      | some r ↦ if matches rel_type r.type then (put seen rid tt, out ++ r ∷ []) else (seen, out)
    ]

unfoldable pub touch_each : Graph → Str → Set → Set × List Relation → Set × List Relation
unfolding touch_one
touch_each g rel_type [] acc = acc
touch_each g rel_type ((rid, u) ∷ rids) acc =
    touch_each g rel_type rids (touch_one g rel_type rid acc)

unfoldable pub relations_touching : Graph → Str → Str → List Relation
unfolding touch_each sort_by_key
relations_touching g id rel_type =
    let first = touch_each g rel_type (members g.outgoing id) ([], []) in
    sort_relations (touch_each g rel_type (members g.incoming id) first).1

-- The stored entities under the ids of a set.
unfoldable pub pick : Dict Str Entity → Set → List Entity
pick entities [] = []
pick entities ((id, u) ∷ ids) =
    let rest = pick entities ids in elim (get entities id) [ none ↦ rest | some e ↦ e ∷ rest ]

unfoldable pub entities_of_type : Graph → Str → List Entity
unfolding pick
entities_of_type g typ = pick g.entities (live_entries g.deleted (members g.by_type typ))

module _ ⦃runtime : Runtime⦄ where
  unfoldable pub match_identity : Graph → Str → List KeyValue → Option Str
  match_identity g type identity = elim (get g.by_hash (identity_hash type identity)) [
    | none ↦ none
    | some id ↦ if has g.deleted id then none else some id
  ]

  -- Past its deadline a tombstone no longer matches.
  abbrev pub lapsed : Time → Graph → Str → Bool
  lapsed now g id =
      ltb 0 g.tombstone_ttl && elim (get g.tomb_deadline id) [ none ↦ false | some t ↦ ltb t now ]

  unfoldable pub match_tombstone : Time → Graph → Str → List KeyValue → Option Str
  match_tombstone now g type identity = elim (get g.tomb_by_hash (identity_hash type identity)) [
    | none ↦ none
    | some id ↦ if not (has g.deleted id) then none else if lapsed now g id then none else some id
  ]

unfoldable pub resolve_fingerprint : Graph → Str → Option Str
resolve_fingerprint g fingerprint = elim (get g.by_hash fingerprint) [
  | none ↦ get g.tomb_by_hash fingerprint
  | some id ↦ some id
]

-- The frontier search of Neighbors: the ids seen, the next frontier and the entities found.
pub record Search : Type 0 where
  pub visited : Set
  pub next : List Str
  pub result : List Entity

unfoldable pub visit_neighbor : Graph → Str → Str → Str → Search → Search
visit_neighbor g nb rel_type edge_type s =
    let found : List Entity = elim (get g.entities nb) [
      | none ↦ s.result
      | some e ↦ if has g.deleted nb then s.result else s.result ++ e ∷ []
    ] in
    if not (matches rel_type edge_type)
    then s
    else if has s.visited nb
    then s
    else record { visited = put s.visited nb tt; next = s.next ++ nb ∷ []; result = found }

-- A relation that is not stored reads as Go's zero value.
abbrev pub zero_relation : Relation
zero_relation = record {
  id = [];
  type = [];
  from = [];
  to = [];
  attributes = [];
  structural = false;
}

abbrev pub relation_at : Graph → Str → Relation
relation_at g rid = elim (get g.relations rid) [ none ↦ zero_relation | some r ↦ r ]

unfoldable pub visit_outgoing : Graph → Str → Set → Search → Search
unfolding visit_neighbor
visit_outgoing g rel_type [] s = s
visit_outgoing g rel_type ((rid, u) ∷ rids) s =
    visit_outgoing g rel_type rids
      (visit_neighbor g (relation_at g rid).to rel_type (relation_at g rid).type s)

unfoldable pub visit_incoming : Graph → Str → Set → Search → Search
unfolding visit_neighbor
visit_incoming g rel_type [] s = s
visit_incoming g rel_type ((rid, u) ∷ rids) s =
    visit_incoming g rel_type rids
      (visit_neighbor g (relation_at g rid).from rel_type (relation_at g rid).type s)

unfoldable pub visit_frontier : Graph → Str → List Str → Search → Search
unfolding visit_outgoing visit_incoming
visit_frontier g rel_type [] s = s
visit_frontier g rel_type (cur ∷ frontier) s = visit_frontier g rel_type frontier (
    visit_incoming g rel_type (members g.incoming cur)
      (visit_outgoing g rel_type (members g.outgoing cur) s))

-- One round for each hop; an empty frontier adds nothing.
unfoldable pub neighbors_from : Graph → Str → ℕ → Search → Search
unfolding visit_frontier
neighbors_from g rel_type zero s = s
neighbors_from g rel_type (suc depth) s =
    neighbors_from g rel_type depth (visit_frontier g rel_type s.next (record s { next = [] }))

unfoldable pub neighbors : Graph → Str → Str → ℕ → List Entity
unfolding neighbors_from
neighbors g id rel_type depth =
    (neighbors_from g rel_type depth
      (record { visited = put [] id tt; next = id ∷ []; result = [] })).result

-- The identifiers that a snapshot mints start at `n`.
module _ ⦃runtime : Runtime⦄ (time : Time) where
  entity_snapshot : ℕ → Entity → Event
  entity_snapshot n e = of_entity (record {
    event_id = runtime.ulid n;
    change_type = entity_created;
    entity = e;
    event_time = time;
    recorded_at = time;
    commit_seq = 0;
    scope = [];
    schema_version = schema_version;
    changed_keys = [];
    delete_reason = [];
    delete_source = source_unknown;
  })

  relation_snapshot : ℕ → Relation → Event
  relation_snapshot n r = of_relation (record {
    event_id = runtime.ulid n;
    change_type = relation_added;
    relation = r;
    event_time = time;
    recorded_at = time;
    commit_seq = 0;
    scope = [];
    schema_version = schema_version;
    changed_keys = [];
    delete_source = source_unknown;
  })

  unfoldable pub snapshot_relations : ℕ → List Relation → List Event
  unfolding relation_snapshot
  snapshot_relations n [] = []
  snapshot_relations n (r ∷ rs) = relation_snapshot n r ∷ snapshot_relations (n + 1) rs

  unfoldable pub snapshot_entities : ℕ → List Entity → List Event
  unfolding entity_snapshot
  snapshot_entities n [] = []
  snapshot_entities n (e ∷ es) = entity_snapshot n e ∷ snapshot_entities (n + 1) es

  unfoldable pub snapshot_events : ℕ → Graph → List Event
  unfolding snapshot_entities snapshot_relations
  snapshot_events n g =
      snapshot_entities n (values (live_entries g.deleted g.entities))
      ++ snapshot_relations (n + entity_count g) (values g.relations)
