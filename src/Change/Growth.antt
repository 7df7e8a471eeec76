-- ===== src/Change/Growth.antt =====
-- The events that a sweep of internal/change/engine.go has staged stay staged in all its later
-- passes.
use toise.Common.{
  In, In-left, is_empty, ltb, ◌+◌, ◌++◌, ◌≡◌, sym, subst, Bool, Bool-cases, true, false, Option,
  none, some, inl, inr, List, [], ◌∷◌, Str, str_Eq,
}
use toise.Common.Dict.{Dict}
use toise.Model.Value.{Runtime}
use toise.Model.Entity.{Entity, Relation, ChangeType, relation_removed}
use toise.Model.Event.{DeleteSource, Event, Time, source_liveness_expiry, source_cascade}
use toise.Projection.Reads.{get_entity, get_relation}
use toise.Change.State.{PendingRelation, RelationObservation}
use toise.Change.Engine.{Engine, commit}
use toise.Change.Atomicity.{staged_events}
use toise.Change.Relations.{
  Outcome, nothing, emitted, endpoint_missing, endpoints_collapsed, commit_error, commit_relation,
  drop_pending_relation, rebuild_pending_hashes, report_discard, alias_belief_live,
}
use toise.Change.Entities.{
  is_emitted, list_relations_touching, remove_each, remove_incident_relations,
}
use toise.Change.Staging.{InBatch, still, commit-outside, commit_relation-outside}
use toise.Change.Sweep.{
  expiry_event, drop_edge, expire_known, expire_entities, expire_parked, expire_pending,
  expire_edge, expire_relations,
}
use toise.Change.Flush.{events_in-append}
use toise.Change.Forgotten.{staged_in, commit-done}
use toise.Change.Expiry.{expire_known-outside, expire_edge-outside}

module _ ⦃runtime : Runtime⦄ where
  pub commit-adds :
      (now : Time) (ev : Event) (hp : Bool) (e : Engine)
      → InBatch e
      → staged_events (commit now ev hp e).0 ≡ staged_events e ++ ev ∷ []
  unfolding commit
  commit-adds now ev hp e h =
      let (st, p) = staged_in e h in rw p (events_in-append st.events ((ev, hp) ∷ []))

  module _ (ev : Event) where
    abbrev pub IsIn : Engine → Type 0
    IsIn e = In ev (staged_events e)

    commit-IsIn :
        (now : Time) (x : Event) (hp : Bool) (e : Engine)
        → InBatch e
        → IsIn e
        → IsIn (commit now x hp e).0
    commit-IsIn now x hp e h i =
        subst (In ev) (sym (commit-adds now x hp e h)) (In-left ev (staged_events e) (x ∷ []) i)

    commit_relation-IsIn :
        (now : Time) (ct : ChangeType) (rel : Relation) (t : Time) (source : DeleteSource)
        (hp : Bool) (e : Engine)
        → InBatch e
        → IsIn e
        → IsIn (commit_relation now ct rel t source hp e).0
    unfolding commit_relation
    commit_relation-IsIn now ct rel t source hp e h i = commit-IsIn now _ hp _ h i

    remove_each-IsIn :
        (now when : Time) (rels : List Relation) (e : Engine)
        → InBatch e
        → IsIn e
        → IsIn (remove_each now when rels e).0
    unfolding remove_each
    remove_each-IsIn now when [] e h i = i
    remove_each-IsIn now when (rel ∷ rels) e h i =
        let r = commit_relation now relation_removed rel when source_cascade rel.structural e in
        let seen =
          commit_relation-outside now relation_removed rel when source_cascade rel.structural e h in
        let one =
          commit_relation-IsIn now relation_removed rel when source_cascade rel.structural e h i in
        elim (Bool-cases (is_emitted r.1)) [
          | inl q ↦ rw q (remove_each-IsIn now when rels _ (still e r.0 seen h) one)
          | inr q ↦ rw q (remove_each-IsIn now when rels _ (still e r.0 seen h) one)
        ]

    pub remove_incident_relations-IsIn :
        (now when : Time) (id : Str) (e : Engine)
        → InBatch e
        → IsIn e
        → IsIn (remove_incident_relations now when id e).0
    unfolding remove_incident_relations
    remove_incident_relations-IsIn now when id e h i =
        remove_each-IsIn now when (list_relations_touching e id) e h i

    expire_known-IsIn :
        (now : Time) (id scope : Str) (e : Engine) (found : Option Entity × Bool)
        → InBatch e
        → IsIn e
        → IsIn (expire_known now id scope e found).0
    unfolding expire_known
    expire_known-IsIn now id scope e (none, deleted) h i = i
    expire_known-IsIn now id scope e (some ent, true) h i = i
    expire_known-IsIn now id scope e (some ent, false) h i =
        let x = expiry_event now ent scope e in
        let s : Engine = record e { minted = e.minted + 1 } in
        rw ((commit-done now x false s h).0) (
          remove_incident_relations-IsIn now now id _
            (still e (commit now x false s).0 (commit-outside now x false s h) h)
            (commit-IsIn now x false s h i))

    pub expire_entities-IsIn :
        (now : Time) (ids : Dict Str Str) (e : Engine)
        → InBatch e
        → IsIn e
        → IsIn (expire_entities now ids e).0
    unfolding expire_entities
    expire_entities-IsIn now [] e h i = i
    expire_entities-IsIn now ((id, scope) ∷ ids) e h i =
        let found = get_entity e.graph id in
        let r = expire_known now id scope e found in
        expire_entities-IsIn now ids r.0
          (still e r.0 (expire_known-outside now id scope e found h) h)
          (expire_known-IsIn now id scope e found h i)

    drop_pending_relation-IsIn :
        (e : Engine) (obs : RelationObservation) → IsIn e → IsIn (drop_pending_relation e obs)
    unfolding drop_pending_relation report_discard
    drop_pending_relation-IsIn e obs i = elim (Bool-cases (alias_belief_live e obs)) [
      | inl p ↦ rw p i
      | inr p ↦ rw p i
    ]

    expire_parked-IsIn :
        (now : Time) (ps : List PendingRelation) (e : Engine)
        → IsIn e
        → IsIn (expire_parked now ps e).0
    unfolding expire_parked
    expire_parked-IsIn now [] e i = i
    expire_parked-IsIn now (p ∷ ps) e i = elim (Bool-cases (ltb p.deadline now)) [
      | inl q ↦ rw q (expire_parked-IsIn now ps _ (drop_pending_relation-IsIn e p.obs i))
      | inr q ↦ rw q (expire_parked-IsIn now ps e i)
    ]

    pub expire_pending-IsIn : (now : Time) (e : Engine) → IsIn e → IsIn (expire_pending now e)
    unfolding expire_pending rebuild_pending_hashes
    expire_pending-IsIn now e i = elim (Bool-cases (is_empty e.pending)) [
      | inl q ↦ rw q i
      | inr q ↦ rw q (expire_parked-IsIn now e.pending e i)
    ]

    drop_edge-IsIn : (id : Str) (r : Engine × Outcome) → IsIn r.0 → IsIn (drop_edge id r).0
    unfolding drop_edge
    drop_edge-IsIn id (e, emitted x) i = i
    drop_edge-IsIn id (e, nothing) i = i
    drop_edge-IsIn id (e, endpoint_missing) i = i
    drop_edge-IsIn id (e, endpoints_collapsed) i = i
    drop_edge-IsIn id (e, commit_error) i = i

    expire_edge-IsIn :
        (now : Time) (id : Str) (e : Engine) (rel : Option Relation)
        → InBatch e
        → IsIn e
        → IsIn (expire_edge now id e rel).0
    unfolding expire_edge
    expire_edge-IsIn now id e none h i = i
    expire_edge-IsIn now id e (some rel) h i =
        drop_edge-IsIn id
          (commit_relation now relation_removed rel now source_liveness_expiry rel.structural e)
          (commit_relation-IsIn now relation_removed rel now source_liveness_expiry _ e h i)

    pub expire_relations-IsIn :
        (now : Time) (ids : Dict Str Str) (e : Engine)
        → InBatch e
        → IsIn e
        → IsIn (expire_relations now ids e).0
    unfolding expire_relations
    expire_relations-IsIn now [] e h i = i
    expire_relations-IsIn now ((id, scope) ∷ ids) e h i =
        let found = get_relation e.graph id in
        let r = expire_edge now id e found in
        expire_relations-IsIn now ids r.0 (still e r.0 (expire_edge-outside now id e found h) h)
          (expire_edge-IsIn now id e found h i)
