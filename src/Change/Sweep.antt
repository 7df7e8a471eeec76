-- ===== src/Change/Sweep.antt =====
-- The liveness pass of internal/change/engine.go: Sweep. The contested display names are not
-- modelled. The passes over the references are taken in the order of the entries.
use toise.Change.Relations.{
  Outcome, emitted, commit_relation, drop_pending_relation, rebuild_pending_hashes,
}
use toise.Change.Engine.{staged_of, Engine, commit, flush_staged}
use toise.Common.{
  str_Eq, ℕ, ◌+◌, Bool, true, false, ◌&&◌, Option, none, some, List, [], ◌∷◌, Str, ltb,
  if◌then◌else◌, is_empty,
}
use toise.Common.Dict.{Dict, remove}
use toise.Model.Value.{Runtime}
use toise.Model.Entity.{Entity, Relation, entity_deleted, relation_removed}
use toise.Model.Event.{Event, Time, source_liveness_expiry, of_entity, schema_version}
use toise.Projection.Graph.{prune_tombstones}
use toise.Projection.Reads.{get_entity, get_relation}
use toise.Change.State.{Speakers, Refs, PendingRelation}
use toise.Change.RefKey.{speaker}
use toise.Change.Liveness.{is_lapsed, drop_lapsed}
use toise.Change.Alias.{sweep_aliases}
use toise.Change.Staged.{new_staged}
use toise.Change.Entities.{remove_incident_relations}

-- The scope that went silent last, with the deadline that it missed.
pub record SilencedSpeaker : Type 0 where
  pub scope : Str
  pub deadline : Time

pub record SweepResult : Type 0 where
  pub entities : ℕ
  pub relations : ℕ

unfoldable pub is_later : Option SilencedSpeaker → Time → Bool
is_later none deadline = true
is_later (some prev) deadline = ltb prev.deadline deadline

unfoldable pub silence : Time → Option SilencedSpeaker → Speakers → Option SilencedSpeaker
unfolding speaker is_later
silence now prev [] = prev
silence now prev ((key, ref) ∷ refs) =
    let missed : SilencedSpeaker = record { scope = (speaker key).1; deadline = ref.deadline } in
    silence now (if is_lapsed now ref && is_later prev ref.deadline then some missed else prev) refs

abbrev pub scope_of : Option SilencedSpeaker → Str
scope_of none = []
scope_of (some s) = s.scope

-- The references that are left.
unfoldable pub drop_refs : Time → Refs → Refs
unfolding drop_lapsed
drop_refs now [] = []
drop_refs now ((id, refs) ∷ rest) = (id, drop_lapsed now refs) ∷ drop_refs now rest

-- The ids without a reference that is left, each with the scope that went silent last.
unfoldable pub orphaned : Time → Refs → Dict Str Str
unfolding drop_lapsed silence
orphaned now [] = []
orphaned now ((id, refs) ∷ rest) =
    let others = orphaned now rest in
    if is_empty (drop_lapsed now refs)
    then (id, scope_of (silence now none refs)) ∷ others
    else others

module _ ⦃runtime : Runtime⦄ where
  unfoldable pub expiry_event : Time → Entity → Str → Engine → Event
  expiry_event now ent scope e = of_entity (record {
    event_id = runtime.ulid e.minted;
    change_type = entity_deleted;
    entity = ent;
    event_time = now;
    recorded_at = now;
    commit_seq = 0;
    scope = scope;
    schema_version = schema_version;
    changed_keys = [];
    delete_reason = [];
    delete_source = source_liveness_expiry;
  })

  -- What an expiry adds to the result, and whether no error came up.
  unfoldable pub expire_known :
      Time → Str → Str → Engine → Option Entity × Bool → Engine × SweepResult × Bool
  unfolding expiry_event
  expire_known now id scope e (some ent, false) =
      let (e', ok) =
        commit now (expiry_event now ent scope e) false (record e { minted = e.minted + 1 }) in
      if ok
      then (let (e'', n, clean) =
            remove_incident_relations now now id (record e' { refs = remove e'.refs id }) in
          (e'', record { entities = 1; relations = n }, clean))
      else (e', record { entities = 0; relations = 0 }, false)
  expire_known now id scope e (ent, deleted) =
      (record e { refs = remove e.refs id }, record { entities = 0; relations = 0 }, true)

  unfoldable pub expire_entities : Time → Dict Str Str → Engine → Engine × SweepResult × Bool
  unfolding expire_known
  expire_entities now [] e = (e, record { entities = 0; relations = 0 }, true)
  expire_entities now ((id, scope) ∷ ids) e =
      let (e', res, clean) = expire_known now id scope e (get_entity e.graph id) in
      let (e'', res', clean') = expire_entities now ids e' in
      (
        e'',
        record {
          entities = res.entities + res'.entities;
          relations = res.relations + res'.relations;
        },
        clean && clean',
      )

  -- The parked edges past their deadline are dropped.
  unfoldable pub expire_parked :
      Time → List PendingRelation → Engine → Engine × List PendingRelation
  unfolding drop_pending_relation
  expire_parked now [] e = (e, [])
  expire_parked now (p ∷ pending) e =
      let e' = if ltb p.deadline now then drop_pending_relation e p.obs else e in
      let (e'', kept) = expire_parked now pending e' in
      (e'', if ltb p.deadline now then kept else p ∷ kept)

  unfoldable pub expire_pending : Time → Engine → Engine
  unfolding expire_parked rebuild_pending_hashes
  expire_pending now e =
      if is_empty e.pending
      then e
      else (let (e', kept) = expire_parked now e.pending e in
          rebuild_pending_hashes (record e' { pending = kept }))

  unfoldable pub drop_edge : Str → Engine × Outcome → Engine × ℕ × Bool
  drop_edge id (e, emitted ev) = (record e { rel_refs = remove e.rel_refs id }, 1, true)
  drop_edge id (e, outcome) = (e, 0, false)

  unfoldable pub expire_edge : Time → Str → Engine → Option Relation → Engine × ℕ × Bool
  unfolding commit_relation drop_edge
  expire_edge now id e none = (record e { rel_refs = remove e.rel_refs id }, 0, true)
  expire_edge now id e (some rel) =
      drop_edge id
        (commit_relation now relation_removed rel now source_liveness_expiry rel.structural e)

  unfoldable pub expire_relations : Time → Dict Str Str → Engine → Engine × ℕ × Bool
  unfolding expire_edge
  expire_relations now [] e = (e, 0, true)
  expire_relations now ((id, scope) ∷ ids) e =
      let (e', n, clean) = expire_edge now id e (get_relation e.graph id) in
      let (e'', n', clean') = expire_relations now ids e' in (e'', n + n', clean && clean')

  -- Everything that is staged before the flush.
  unfoldable pub sweep_staged : Time → Engine → Engine × SweepResult × Bool
  unfolding drop_refs orphaned expire_entities expire_pending expire_relations
  sweep_staged now e =
      let (e1, res, clean) =
        expire_entities now (orphaned now e.refs)
          (record e { staged = some new_staged; refs = drop_refs now e.refs }) in
      let e2 = expire_pending now e1 in
      let (e3, n, clean') =
        expire_relations now (orphaned now e2.rel_refs)
          (record e2 { rel_refs = drop_refs now e2.rel_refs }) in
      (e3, record { entities = res.entities; relations = res.relations + n }, clean && clean')

  -- The last step: the lapsed claims and the tombstones past their time.
  unfoldable pub tidy : Time → Engine → Engine
  unfolding sweep_aliases prune_tombstones
  tidy now e = record e {
    aliases = sweep_aliases now e.aliases;
    graph = (prune_tombstones now e.graph).0;
  }

  -- Sweep: a failed flush expired nothing.
  unfoldable pub sweep : Time → Engine → Engine × SweepResult × Bool
  unfolding sweep_staged flush_staged tidy
  sweep now e =
      let (e', res, clean) = sweep_staged now e in
      let (e'', flushed) = flush_staged now (staged_of e'.staged) e' in
      (
        tidy now e'',
        if flushed then res else record { entities = 0; relations = 0 },
        clean && flushed,
      )
