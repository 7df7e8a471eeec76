-- ===== src/Change/Entities.antt =====
-- The entity observations of internal/change/engine.go. The display names of trackDisplayName are
-- not modelled: nothing but their own report reads them.
use toise.Common.{
  ℕ, ◌+◌, Bool, true, false, ◌&&◌, ◌||◌, Option, none, some, List, [], ◌∷◌, ◌++◌, if◌then◌else◌,
  Str, str_Eq, ◌==◌, keep,
}
use toise.Common.Dict.{put, remove, has}
use toise.Model.Value.{Runtime, KeyValue}
use toise.Model.Entity.{
  Entity, Relation, ChangeType, entity_created, relation_removed, identity_hash,
}
use toise.Model.Event.{Event, Time, source_unknown, source_cascade, of_entity, schema_version}
use toise.Projection.Reads.{list_relations, sort_relations, values}
use toise.Change.State.{EntityObservation}
use toise.Change.RefKey.{ref_key}
use toise.Change.Liveness.{arm, zero_ref, note_promise, speakers_of}
use toise.Change.Diff.{diff_attributes, classify}
use toise.Change.Staged.{overlay_get_entity, overlay_match_tombstone}
use toise.Change.Engine.{Engine, current_scope, commit}
use toise.Change.Relations.{match_id, Outcome, emitted, commit_relation, flush_pending}

-- What an observation is classified as: the change, the entity's id, the keys that changed, and
-- whether the id is a new one.
pub record Classified : Type 0 where
  pub change_type : ChangeType
  pub id : Str
  pub changed_keys : List Str
  pub is_new : Bool

abbrev attributes_of : Option Entity → List KeyValue
attributes_of none = []
attributes_of (some e) = e.attributes

module _ ⦃runtime : Runtime⦄ where
  -- An unknown identity takes the id of its tombstone, or a new one.
  create : Option Str → Engine → Classified
  create (some id) e = record {
    change_type = entity_created;
    id = id;
    changed_keys = [];
    is_new = false;
  }
  create none e = record {
    change_type = entity_created;
    id = runtime.ulid e.minted;
    changed_keys = [];
    is_new = true;
  }

  classify_found : Time → EntityObservation → Engine → Option Str → Classified
  unfolding create
  classify_found now obs e none =
      create (overlay_match_tombstone now e.staged e.graph obs.type obs.identity) e
  classify_found now obs e (some id) =
      let diff =
        diff_attributes (attributes_of (overlay_get_entity e.staged e.graph id).0) obs.attributes in
      record { change_type = classify diff; id = id; changed_keys = diff.0; is_new = false }

  unfoldable pub classify_observation : Time → EntityObservation → Engine → Classified
  unfolding classify_found
  classify_observation now obs e = classify_found now obs e (match_id e obs.type obs.identity)

  unfoldable pub entity_event : Time → EntityObservation → Classified → ℕ → Str → Event
  entity_event now obs c n scope = of_entity (record {
    event_id = runtime.ulid n;
    change_type = c.change_type;
    entity = record {
      id = c.id;
      type = obs.type;
      identity = obs.identity;
      attributes = obs.attributes;
      schema_url = obs.schema_url;
    };
    event_time = obs.event_time;
    recorded_at = now;
    commit_seq = 0;
    scope = scope;
    schema_version = schema_version;
    changed_keys = c.changed_keys;
    delete_reason = [];
    delete_source = source_unknown;
  })

  -- The speaker's reference on the entity, and the record of a refused promise.
  unfoldable pub arm_entity : Time → EntityObservation → Str → Engine → Engine
  arm_entity now obs id e =
      let key = ref_key obs.producer (current_scope e) in
      record e {
        refs = put e.refs id (put (speakers_of e.refs id) key (arm now obs.interval zero_ref));
        bad_promises = note_promise e.bad_promises id obs.producer obs.interval;
      }

  -- Parked edges are retried when this identity is one that they wait for.
  unfoldable pub wake_pending : Time → EntityObservation → Engine → Engine
  wake_pending now obs e =
      if has e.pending_hashes (identity_hash obs.type obs.identity) then flush_pending now e else e

  -- The event, or `none` when its commit failed.
  unfoldable pub observe_entity_locked : Time → EntityObservation → Engine → Engine × Option Event
  unfolding classify_observation entity_event arm_entity wake_pending
  observe_entity_locked now obs e =
      let c = classify_observation now obs e in
      let n = if c.is_new then e.minted + 1 else e.minted in
      let ev = entity_event now obs c n (current_scope e) in
      let (e', ok) = commit now ev false (record e { minted = n + 1 }) in
      if ok then (wake_pending now obs (arm_entity now obs c.id e'), some ev) else (e', none)

  -- The edges of listRelationsTouching: staged ones first, then the projection's, none removed.
  abbrev lists_id : List Relation → Str → Bool
  lists_id [] rid = false
  lists_id (r ∷ rs) rid = r.id == rid || lists_id rs rid

  merge_edges : Engine → List Relation → List Relation → List Relation
  merge_edges e out [] = out
  merge_edges e out (r ∷ rs) =
      let removed : Bool = elim e.staged [ none ↦ false | some st ↦ has st.rel_removed r.id ] in
      merge_edges e (if lists_id out r.id || removed then out else out ++ r ∷ []) rs

  unfoldable pub list_relations_touching : Engine → Str → List Relation
  unfolding merge_edges
  list_relations_touching e id =
      let staged : List Relation = elim e.staged [
        | none ↦ []
        | some st ↦ keep (λ r. r.from == id || r.to == id) (values st.relations)
      ] in
      sort_relations
        (merge_edges e staged (list_relations e.graph [] id [] ++ list_relations e.graph [] [] id))

  abbrev pub is_emitted : Outcome → Bool
  is_emitted (emitted ev) = true
  is_emitted _ = false

  -- The cascade: how many edges went, and whether every removal committed.
  unfoldable pub remove_each : Time → Time → List Relation → Engine → Engine × ℕ × Bool
  unfolding commit_relation
  remove_each now when [] e = (e, 0, true)
  remove_each now when (rel ∷ rels) e =
      let (e', outcome) =
        commit_relation now relation_removed rel when source_cascade rel.structural e in
      let went = is_emitted outcome in
      let (e'', n, ok) =
        remove_each now when rels
          (if went then record e' { rel_refs = remove e'.rel_refs rel.id } else e') in
      (e'', if went then n + 1 else n, went && ok)

  unfoldable pub remove_incident_relations : Time → Time → Str → Engine → Engine × ℕ × Bool
  unfolding remove_each list_relations_touching
  remove_incident_relations now when id e = remove_each now when (list_relations_touching e id) e
