-- ===== src/Change/Staged.antt =====
-- The staged unit of work of internal/change/engine.go: the overlay, and the reads through it.
pub mod Overlay
use toise.Common.{
  ℕ, ◌≡◌, refl, Bool, true, false, ◌&&◌, ◌||◌, not, Option, none, some, List, [], ◌∷◌, ◌++◌, arith,
  if◌then◌else◌, Str, str_Eq, str_eq_iff, str_eq_refl, ◌==◌, is_some, foldl,
}
use toise.Common.Dict.{Dict, get, put, remove, has, get-put, get-remove, get-empty}
use toise.Model.Value.{Runtime, KeyValue}
use toise.Model.Entity.{
  Entity, Relation, ChangeType, entity_created, entity_deleted, entity_attribute_updated,
  entity_state_changed, relation_added, relation_removed, relation_attribute_changed, hash_of,
  identity_hash,
}
use toise.Model.Event.{Event, EntityEvent, RelationEvent, Time}
use toise.Projection.Graph.{
  Graph, Set, apply, apply_parts, apply_entity, apply_relation, put_entity, put_relation,
  drop_relation, delete_entity, replay,
}
use toise.Projection.Reads.{get_entity, get_relation, match_identity, match_tombstone}
use toise.Change.State.{Staged}

unfoldable pub new_staged : Staged
new_staged = record {
  events = [];
  scope = [];
  entities = [];
  deleted = [];
  by_hash = [];
  relations = [];
  rel_removed = [];
}

unfoldable pub stage_relation : Staged → ChangeType → Relation → Staged
stage_relation st relation_added r = record st {
  relations = put st.relations r.id r;
  rel_removed = remove st.rel_removed r.id;
}
stage_relation st relation_attribute_changed r = record st {
  relations = put st.relations r.id r;
  rel_removed = remove st.rel_removed r.id;
}
stage_relation st relation_removed r = record st {
  relations = remove st.relations r.id;
  rel_removed = put st.rel_removed r.id tt;
}
stage_relation st _ r = st

module _ ⦃runtime : Runtime⦄ where
  unfoldable pub stage_entity : Staged → ChangeType → Entity → Staged
  stage_entity st entity_created e = record st {
    entities = put st.entities e.id e;
    deleted = remove st.deleted e.id;
    by_hash = put st.by_hash (hash_of e) e.id;
  }
  stage_entity st entity_attribute_updated e = record st { entities = put st.entities e.id e }
  stage_entity st entity_state_changed e = record st { entities = put st.entities e.id e }
  stage_entity st entity_deleted e = record st { deleted = put st.deleted e.id tt }
  stage_entity st _ e = st

  unfoldable pub stage_parts : Staged → Option EntityEvent → Option RelationEvent → Staged
  unfolding stage_entity stage_relation
  stage_parts st (some ee) re = stage_entity st ee.change_type ee.entity
  stage_parts st none (some re) = stage_relation st re.change_type re.relation
  stage_parts st none none = st

  -- staged.apply
  unfoldable pub stage : Staged → Event → Staged
  unfolding stage_parts
  stage st ev = stage_parts st ev.entity ev.relation

  -- The reads of the engine, with or without a batch.
  unfoldable pub overlay_match_identity : Option Staged → Graph → Str → List KeyValue → Option Str
  overlay_match_identity none g type identity = match_identity g type identity
  overlay_match_identity (some st) g type identity =
      elim (get st.by_hash (identity_hash type identity)) [
        | some id ↦ if has st.deleted id then none else some id
        | none ↦ elim (match_identity g type identity) [
          | none ↦ none
          | some id ↦ if has st.deleted id then none else some id
        ]
      ]

  unfoldable pub overlay_match_tombstone :
      Time → Option Staged → Graph → Str → List KeyValue → Option Str
  overlay_match_tombstone now none g type identity = match_tombstone now g type identity
  overlay_match_tombstone now (some st) g type identity =
      elim (match_tombstone now g type identity) [
        | none ↦ none
        | some id ↦ if has st.deleted id then none else some id
      ]

unfoldable pub overlay_get_entity : Option Staged → Graph → Str → Option Entity × Bool
overlay_get_entity none g id = get_entity g id
overlay_get_entity (some st) g id = elim (get st.entities id) [
  | some e ↦ (some e, has st.deleted id)
  | none ↦ ((get_entity g id).0, (get_entity g id).1 || has st.deleted id)
]

unfoldable pub overlay_get_relation : Option Staged → Graph → Str → Option Relation
overlay_get_relation none g id = get_relation g id
overlay_get_relation (some st) g id =
    if has st.rel_removed id
    then none
    else elim (get st.relations id) [ some r ↦ some r | none ↦ get_relation g id ]
