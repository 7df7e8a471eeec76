-- ===== src/Change/Forgotten.antt =====
-- What a sweep of internal/change/engine.go does to the references of the entities it expires.
use toise.Change.Engine.{
  events_in, disk_now, disk_later, priorities, staged_of, Engine, commit, flush_staged, publish,
  settle, append_events,
}
use toise.Store.{append, refused, appended, Appended}
use toise.Common.Dict.{get-remove, remove, has, Dict, get}
use toise.Common.{
  arith, ◌+◌, is_empty, ltb, ◌⊎◌, Bool-cases, List-cases, Option, Option-cases, Bool, List, Str,
  str_Eq, ◌≡◌, refl, ap, ◌∙◌, none, some, true, false, inl, inr, [], ◌∷◌,
}
use toise.Change.Expiry.{
  expire_pending-outside, expire_entities-outside, expire_known-outside, expire_edge-outside,
}
use toise.Change.Entities.{
  is_emitted, list_relations_touching, remove_each, remove_incident_relations,
}
use toise.Change.Staging.{commit_relation-outside, is_some-none, InBatch, still, commit-outside}
use toise.Change.Sweep.{
  expiry_event, drop_refs, sweep, sweep_staged, expire_known, expire_entities, expire_parked,
  expire_pending, expire_edge, expire_relations, tidy, drop_edge, orphaned,
}
use toise.Change.Relations.{
  alias_belief_live, Outcome, report_discard, commit_relation, drop_pending_relation,
  rebuild_pending_hashes, nothing, emitted, endpoint_missing, endpoints_collapsed, commit_error,
}
use toise.Change.Flush.{flush_something, flush_nothing}
use toise.Projection.Reads.{get_entity, get_relation}
use toise.Model.Event.{source_cascade, source_liveness_expiry, DeleteSource, Event, Time}
use toise.Model.Entity.{Entity, relation_removed, ChangeType, Relation}
use toise.Change.State.{RelationObservation, PendingRelation, Staged}
use toise.Change.Staged.{new_staged}
use toise.Model.Value.{Runtime}

module _ ⦃runtime : Runtime⦄ where
  commit_done :
      (now : Time) (ev : Event) (hp : Bool) (e : Engine) (st : Staged)
      → e.staged ≡ some st
      → ((commit now ev hp e).1 ≡ true) × ((commit now ev hp e).0.refs ≡ e.refs)
  unfolding commit
  commit_done now ev hp e st p = rw p (refl, refl)

  pub staged_in : (e : Engine) → InBatch e → (st : Staged) × (e.staged ≡ some st)
  staged_in e h = elim (Option-cases e.staged) [
    | inl p ↦ cc (is_some-none e.staged p h)
    | inr q ↦ q
  ]

  pub commit-done :
      (now : Time) (ev : Event) (hp : Bool) (e : Engine)
      → InBatch e
      → ((commit now ev hp e).1 ≡ true) × ((commit now ev hp e).0.refs ≡ e.refs)
  commit-done now ev hp e h = let (st, p) = staged_in e h in commit_done now ev hp e st p

  commit_relation-refs :
      (now : Time) (ct : ChangeType) (rel : Relation) (t : Time) (source : DeleteSource) (hp : Bool)
      (e : Engine)
      → InBatch e
      → (commit_relation now ct rel t source hp e).0.refs ≡ e.refs
  unfolding commit_relation
  commit_relation-refs now ct rel t source hp e h = (commit-done now _ hp _ h).1

  remove_each-refs :
      (now when : Time) (rels : List Relation) (e : Engine)
      → InBatch e
      → (remove_each now when rels e).0.refs ≡ e.refs
  unfolding remove_each
  remove_each-refs now when [] e h = refl
  remove_each-refs now when (rel ∷ rels) e h =
      let r = commit_relation now relation_removed rel when source_cascade rel.structural e in
      let seen =
        commit_relation-outside now relation_removed rel when source_cascade rel.structural e h in
      let one =
        commit_relation-refs now relation_removed rel when source_cascade rel.structural e h in
      elim (Bool-cases (is_emitted r.1)) [
        | inl q ↦ rw q (remove_each-refs now when rels _ (still e r.0 seen h) ∙ one)
        | inr q ↦ rw q (remove_each-refs now when rels _ (still e r.0 seen h) ∙ one)
      ]

  remove_incident_relations-refs :
      (now when : Time) (id : Str) (e : Engine)
      → InBatch e
      → (remove_incident_relations now when id e).0.refs ≡ e.refs
  unfolding remove_incident_relations
  remove_incident_relations-refs now when id e h =
      remove_each-refs now when (list_relations_touching e id) e h

  expire_known-refs :
      (now : Time) (id scope : Str) (e : Engine) (found : Option Entity × Bool)
      → InBatch e
      → (expire_known now id scope e found).0.refs ≡ remove e.refs id
  unfolding expire_known
  expire_known-refs now id scope e (none, deleted) h = refl
  expire_known-refs now id scope e (some ent, true) h = refl
  expire_known-refs now id scope e (some ent, false) h =
      let ev = expiry_event now ent scope e in
      let r = commit now ev false (record e { minted = e.minted + 1 }) in
      let (ok, same) = commit-done now ev false (record e { minted = e.minted + 1 }) h in
      let one = commit-outside now ev false (record e { minted = e.minted + 1 }) h in
      rw ok (
        remove_incident_relations-refs now now id _ (still e r.0 one h)
        ∙ ap (λ refs. remove refs id) same)

  expire_entities-none :
      (now : Time) (ids : Dict Str Str) (e : Engine) (j : Str)
      → InBatch e
      → (has ids j ≡ true) ⊎ (get e.refs j ≡ none)
      → get (expire_entities now ids e).0.refs j ≡ none
  unfolding expire_entities get
  expire_entities-none now [] e j h (inl p) = cc
  expire_entities-none now [] e j h (inr p) = p
  expire_entities-none now ((id, scope) ∷ ids) e j h known =
      let r = expire_known now id scope e (get_entity e.graph id) in
      let one = expire_known-outside now id scope e (get_entity e.graph id) h in
      let left = expire_known-refs now id scope e (get_entity e.graph id) h in
      expire_entities-none now ids r.0 j (still e r.0 one h)
        (ground (arith, known, ap (λ refs. get refs j) left, get-remove e.refs id j))

  drop_pending_relation-refs :
      (e : Engine) (obs : RelationObservation) → (drop_pending_relation e obs).refs ≡ e.refs
  unfolding drop_pending_relation report_discard
  drop_pending_relation-refs e obs = elim (Bool-cases (alias_belief_live e obs)) [
    | inl p ↦ rw p refl
    | inr p ↦ rw p refl
  ]

  expire_parked-refs :
      (now : Time) (ps : List PendingRelation) (e : Engine)
      → (expire_parked now ps e).0.refs ≡ e.refs
  unfolding expire_parked
  expire_parked-refs now [] e = refl
  expire_parked-refs now (p ∷ ps) e = elim (Bool-cases (ltb p.deadline now)) [
    | inl q ↦ rw q (expire_parked-refs now ps _ ∙ drop_pending_relation-refs e p.obs)
    | inr q ↦ rw q (expire_parked-refs now ps e)
  ]

  expire_pending-refs : (now : Time) (e : Engine) → (expire_pending now e).refs ≡ e.refs
  unfolding expire_pending rebuild_pending_hashes
  expire_pending-refs now e = elim (Bool-cases (is_empty e.pending)) [
    | inl q ↦ rw q refl
    | inr q ↦ rw q (expire_parked-refs now e.pending e)
  ]

  drop_edge-refs : (id : Str) (r : Engine × Outcome) → (drop_edge id r).0.refs ≡ r.0.refs
  unfolding drop_edge
  drop_edge-refs id (e, emitted ev) = refl
  drop_edge-refs id (e, nothing) = refl
  drop_edge-refs id (e, endpoint_missing) = refl
  drop_edge-refs id (e, endpoints_collapsed) = refl
  drop_edge-refs id (e, commit_error) = refl

  expire_edge-refs :
      (now : Time) (id : Str) (e : Engine) (rel : Option Relation)
      → InBatch e
      → (expire_edge now id e rel).0.refs ≡ e.refs
  unfolding expire_edge
  expire_edge-refs now id e none h = refl
  expire_edge-refs now id e (some rel) h =
      drop_edge-refs id
        (commit_relation now relation_removed rel now source_liveness_expiry rel.structural e)
      ∙ commit_relation-refs now relation_removed rel now source_liveness_expiry _ e h

  expire_relations-refs :
      (now : Time) (ids : Dict Str Str) (e : Engine)
      → InBatch e
      → (expire_relations now ids e).0.refs ≡ e.refs
  unfolding expire_relations
  expire_relations-refs now [] e h = refl
  expire_relations-refs now ((id, scope) ∷ ids) e h =
      let r = expire_edge now id e (get_relation e.graph id) in
      let one = expire_edge-outside now id e (get_relation e.graph id) h in
      expire_relations-refs now ids r.0 (still e r.0 one h)
      ∙ expire_edge-refs now id e (get_relation e.graph id) h

  sweep_staged-refs :
      (now : Time) (e : Engine) (id : Str)
      → has (orphaned now e.refs) id ≡ true
      → get (sweep_staged now e).0.refs id ≡ none
  unfolding sweep_staged
  sweep_staged-refs now e id h =
      let e0 : Engine = record e { staged = some new_staged; refs = drop_refs now e.refs } in
      let e1 = (expire_entities now (orphaned now e.refs) e0).0 in
      let p1 = expire_entities-outside now (orphaned now e.refs) e0 refl in
      let e2 = expire_pending now e1 in
      let p2 = expire_pending-outside now e1 ∙ p1 in
      let e2' : Engine = record e2 { rel_refs = drop_refs now e2.rel_refs } in
      let gone = expire_entities-none now (orphaned now e.refs) e0 id refl (inl h) in
      ap (λ refs. get refs id)
        (expire_relations-refs now (orphaned now e2.rel_refs) e2' (still e0 e2 p2 refl)
          ∙ expire_pending-refs now e1)
      ∙ gone

  publish-refs :
      (now : Time) (evs : List Event) (hps : List Bool) (e : Engine)
      → (publish now evs hps e).refs ≡ e.refs
  unfolding publish
  publish-refs now [] hps e = refl
  publish-refs now (ev ∷ evs) [] e = refl
  publish-refs now (ev ∷ evs) (hp ∷ hps) e = publish-refs now evs hps _

  settle-refs :
      (now : Time) (hps : List Bool) (e : Engine) (a : Appended)
      → (settle now hps e a).0.refs ≡ e.refs
  unfolding settle
  settle-refs now hps e (appended s evs) = publish-refs now evs hps _
  settle-refs now hps e (refused err) = refl

  append_events-refs :
      (now : Time) (evs : List (Event × Bool)) (e : Engine)
      → (append_events now evs e).0.refs ≡ e.refs
  unfolding append_events
  append_events-refs now evs e =
      settle-refs now (priorities evs) (record e { disk = disk_later e.disk })
        (append (disk_now e.disk) e.store (events_in evs))

  flush_staged-refs :
      (now : Time) (st : Staged) (e : Engine) → (flush_staged now st e).0.refs ≡ e.refs
  flush_staged-refs now st e = elim (List-cases st.events) [
    | inl p ↦ ap (λ r. r.0.refs) (flush_nothing now st e p)
    | inr (x, xs, p) ↦
        ap (λ r. r.0.refs) (flush_something now st e x xs p)
        ∙ append_events-refs now (x ∷ xs) (record e { staged = none })
  ]

  -- An entity that a sweep takes for expired has no reference entry after the sweep, whatever
  -- became of the sweep's append.
  pub sweep-forgets :
      (now : Time) (e : Engine) (id : Str)
      → has (orphaned now e.refs) id ≡ true
      → get (sweep now e).0.refs id ≡ none
  unfolding sweep tidy
  sweep-forgets now e id h =
      let s = (sweep_staged now e).0 in
      ap (λ refs. get refs id) (flush_staged-refs now (staged_of s.staged) s)
      ∙ sweep_staged-refs now e id h
