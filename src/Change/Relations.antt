-- ===== src/Change/Relations.antt =====
-- The relation observations of internal/change/engine.go and alias.go: endpoints, classification,
-- the reconciliation buffer and removal.
use toise.Common.{
  is_empty, ℕ, ◌+◌, Bool, true, false, ◌&&◌, ◌||◌, Option, none, some, List, [], ◌∷◌, ◌++◌,
  if◌then◌else◌, ltb, Str, codes, str_Eq, ◌==◌,
}
use toise.Common.Dict.{put}
use toise.Model.Value.{Runtime, KeyValue, Value, string}
use toise.Model.Entity.{
  Relation, ChangeType, relation_added, relation_attribute_changed, identity_hash,
}
use toise.Model.Event.{Event, Time, DeleteSource, source_unknown, of_relation, schema_version}
use toise.Model.Validate.{new_relation}
use toise.Projection.Graph.{Set}
use toise.Change.State.{EndpointRef, RelationObservation, PendingRelation}
use toise.Change.RefKey.{ref_key}
use toise.Change.Liveness.{arm, inherited_ref, speakers_of}
use toise.Change.Diff.{diff_attributes}
use toise.Change.Alias.{resolve, live, alias_claim_from_observation}
use toise.Change.Staged.{overlay_match_identity, overlay_get_relation}
use toise.Change.Engine.{Engine, current_scope, set_current_scope, commit}

-- The result of a relation observation.
pub data Outcome : Type 0 where
  nothing : Outcome
  emitted : Event → Outcome
  endpoint_missing endpoints_collapsed commit_error : Outcome

pub data Endpoints : Type 0 where
  ends : Str → Str → Endpoints
  missing collapsed : Endpoints

-- maxPendingRelations
abbrev pub max_pending_relations : ℕ
max_pending_relations = 4096

-- model.RelSameAs
abbrev pub rel_same_as : Str
rel_same_as = codes "same_as"

unfoldable pub report_discard : Engine → RelationObservation → Engine
report_discard e obs = record e {
  discards = e.discards ++ (obs.type, obs.from.type, obs.to.type) ∷ [];
}

abbrev pub canonical_of : Engine → KeyValue → Value → Option Str
canonical_of e kv (string s) =
    resolve e.aliases (record { attribute_key = kv.key; alias_value = s })
canonical_of e kv _ = none

-- The substituted identity, and whether an alias was replaced.
unfoldable pub substitute : Engine → List KeyValue → List KeyValue × Bool
substitute e [] = ([], false)
substitute e (kv ∷ kvs) =
    let (out, changed) = substitute e kvs in
    elim (canonical_of e kv kv.value) [
      | none ↦ (kv ∷ out, changed)
      | some v ↦ (record { key = kv.key; value = string v } ∷ out, true)
    ]

-- `none` where nothing changed.
unfoldable pub substitute_aliases : Engine → List KeyValue → Option (List KeyValue)
unfolding substitute
substitute_aliases e identity =
    let (out, changed) = substitute e identity in if changed then some out else none

module _ ⦃runtime : Runtime⦄ where
  abbrev pub match_id : Engine → Str → List KeyValue → Option Str
  match_id e type identity = overlay_match_identity e.staged e.graph type identity

  -- The exact identity first, then once with the aliases substituted; the flag tells which.
  unfoldable pub resolve_endpoint : Engine → EndpointRef → Option (Str × Bool)
  resolve_endpoint e ref = elim (match_id e ref.type ref.identity) [
    | some id ↦ some (id, false)
    | none ↦ elim (substitute_aliases e ref.identity) [
      | none ↦ none
      | some sub ↦ elim (match_id e ref.type sub) [ none ↦ none | some id ↦ some (id, true) ]
    ]
  ]

  join_ends : Option (Str × Bool) → Option (Str × Bool) → Endpoints
  join_ends none to = missing
  join_ends (some from) none = missing
  join_ends (some (from, from_sub)) (some (to, to_sub)) =
      if (from_sub || to_sub) && from == to then collapsed else ends from to

  unfoldable pub resolve_endpoints : Engine → EndpointRef → EndpointRef → Endpoints
  unfolding join_ends resolve_endpoint
  resolve_endpoints e from to = join_ends (resolve_endpoint e from) (resolve_endpoint e to)

  unfoldable pub relation_event :
      Time → Engine → ChangeType → Relation → Time → DeleteSource → Event
  relation_event now e ct rel event_time source = of_relation (record {
    event_id = runtime.ulid e.minted;
    change_type = ct;
    relation = rel;
    event_time = event_time;
    recorded_at = now;
    commit_seq = 0;
    scope = current_scope e;
    schema_version = schema_version;
    changed_keys = [];
    delete_source = source;
  })

  unfoldable pub commit_relation :
      Time → ChangeType → Relation → Time → DeleteSource → Bool → Engine → Engine × Outcome
  unfolding relation_event
  commit_relation now ct rel event_time source hp e =
      let ev = relation_event now e ct rel event_time source in
      let (e', ok) = commit now ev hp (record e { minted = e.minted + 1 }) in
      (e', if ok then emitted ev else commit_error)

  -- The speaker's reference is armed first, also where nothing else changes.
  unfoldable pub arm_relation : Time → RelationObservation → Str → Str → Engine → Engine
  arm_relation now obs from rid e =
      let key = ref_key obs.producer (current_scope e) in
      let armed = arm now obs.interval (inherited_ref e.refs from key) in
      record e { rel_refs = put e.rel_refs rid (put (speakers_of e.rel_refs rid) key armed) }

  abbrev pub classify_relation : Option Relation → RelationObservation → Option ChangeType
  classify_relation none obs = some relation_added
  classify_relation (some existing) obs =
      if is_empty (diff_attributes existing.attributes obs.attributes).0
      then none
      else some relation_attribute_changed

  abbrev pub is_added : ChangeType → Bool
  is_added relation_added = true
  is_added _ = false

  -- The event of a change, if there is one.
  unfoldable pub emit_change :
      Time → RelationObservation → Relation → Engine → Option ChangeType → Engine × Outcome
  unfolding commit_relation
  emit_change now obs rel e none = (e, nothing)
  emit_change now obs rel e (some ct) =
      commit_relation now ct rel obs.event_time source_unknown (rel.structural && is_added ct) e

  unfoldable pub observe_ends : Time → RelationObservation → Engine → Endpoints → Engine × Outcome
  unfolding arm_relation emit_change
  observe_ends now obs e missing = (e, endpoint_missing)
  observe_ends now obs e collapsed = (e, endpoints_collapsed)
  observe_ends now obs e (ends from to) =
      let rel = new_relation obs.type from to obs.attributes in
      let e' = arm_relation now obs from rel.id e in
      emit_change now obs rel e'
        (classify_relation (overlay_get_relation e'.staged e'.graph rel.id) obs)

  unfoldable pub observe_relation_locked : Time → RelationObservation → Engine → Engine × Outcome
  unfolding observe_ends resolve_endpoints
  observe_relation_locked now obs e = observe_ends now obs e (resolve_endpoints e obs.from obs.to)

  -- The belief of a same_as edge that is given up on is still live.
  unfoldable pub alias_belief_live : Engine → RelationObservation → Bool
  alias_belief_live e obs = obs.type == rel_same_as && elim (alias_claim_from_observation obs) [
    | none ↦ false
    | some claim ↦ live e.aliases claim
  ]

  unfoldable pub drop_pending_relation : Engine → RelationObservation → Engine
  unfolding alias_belief_live report_discard
  drop_pending_relation e obs = if alias_belief_live e obs then e else report_discard e obs

  unfoldable pub endpoint_hashes : Engine → EndpointRef → Set → Set
  unfolding substitute_aliases
  endpoint_hashes e ref hashes =
      let exact = put hashes (identity_hash ref.type ref.identity) tt in
      elim (substitute_aliases e ref.identity) [
        | none ↦ exact
        | some sub ↦ put exact (identity_hash ref.type sub) tt
      ]

  unfoldable pub waited_hashes : Engine → List PendingRelation → Set
  unfolding endpoint_hashes
  waited_hashes e [] = []
  waited_hashes e (p ∷ pending) =
      endpoint_hashes e p.obs.to (endpoint_hashes e p.obs.from (waited_hashes e pending))

  unfoldable pub rebuild_pending_hashes : Engine → Engine
  unfolding waited_hashes
  rebuild_pending_hashes e = record e { pending_hashes = waited_hashes e e.pending }

  -- What becomes of a parked edge that was retried: it goes, or is kept.
  unfoldable pub retried : PendingRelation → Engine × Outcome → Engine × List PendingRelation
  unfolding drop_pending_relation
  retried p (e, nothing) = (e, [])
  retried p (e, emitted ev) = (e, [])
  retried p (e, endpoints_collapsed) = (drop_pending_relation e p.obs, [])
  retried p (e, endpoint_missing) = (e, p ∷ [])
  retried p (e, commit_error) = (e, p ∷ [])

  -- One parked edge: dropped past its deadline, else retried under the scope that parked it.
  unfoldable pub retry_pending : Time → PendingRelation → Engine → Engine × List PendingRelation
  unfolding observe_relation_locked retried
  retry_pending now p e =
      if ltb p.deadline now
      then (drop_pending_relation e p.obs, [])
      else (let flushing = current_scope e in
          let (e', outcome) = observe_relation_locked now p.obs (set_current_scope e p.scope) in
          retried p (set_current_scope e' flushing, outcome))

  unfoldable pub flush_each : Time → List PendingRelation → Engine → Engine × List PendingRelation
  unfolding retry_pending
  flush_each now [] e = (e, [])
  flush_each now (p ∷ pending) e =
      let (e', kept) = retry_pending now p e in
      let (e'', rest) = flush_each now pending e' in (e'', kept ++ rest)

  unfoldable pub flush_pending : Time → Engine → Engine
  unfolding flush_each rebuild_pending_hashes
  flush_pending now e =
      if is_empty e.pending
      then e
      else (let (e', kept) = flush_each now e.pending e in
          rebuild_pending_hashes (record e' { pending = kept }))
