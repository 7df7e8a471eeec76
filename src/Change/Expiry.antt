-- ===== src/Change/Expiry.antt =====
-- The sweep of internal/change/engine.go: what it expires, and that it is all or nothing.
use toise.Common.{
  ◌&&◌, ◌+◌, Bool, is_empty, ltb, ◌⊎◌, Bool-cases, Option, List, Str, str_Eq, ◌≡◌, refl, ◌∙◌, none,
  some, true, false, inl, inr, [], ◌∷◌,
}
use toise.Common.Dict.{Dict}
use toise.Change.State.{PendingRelation}
use toise.Change.Atomicity.{staged_events, flush-Untouched, flush-carried, shown, Untouched, seen}
use toise.Change.Staging.{
  commit_relation-outside, drop_pending_relation-outside, outside, InBatch, still, commit-outside,
}
use toise.Change.Staging.Nodes.{remove_incident_relations-outside}
use toise.Model.Event.{source_liveness_expiry, Event, Time}
use toise.Change.Engine.{staged_of, Engine, commit, flush_staged}
use toise.Change.Sweep.{
  expiry_event, orphaned, drop_refs, sweep, sweep_staged, expire_known, expire_entities,
  expire_parked, expire_pending, expire_edge, expire_relations, tidy, drop_edge,
}
use toise.Model.Entity.{relation_removed, Entity, Relation}
use toise.Change.Relations.{
  commit_relation, Outcome, rebuild_pending_hashes, nothing, emitted, endpoint_missing,
  endpoints_collapsed, commit_error,
}
use toise.Change.Flush.{Followed}
use toise.Projection.Reads.{get_entity, get_relation}
use toise.Change.Staged.{new_staged}
use toise.Store.Laws.{IsSequential}
use toise.Model.Value.{Runtime}

and_true : (b : Bool) → b && true ≡ b
and_true true = refl
and_true false = refl

and_false : (b : Bool) → b && false ≡ false
and_false true = refl
and_false false = refl

module _ ⦃runtime : Runtime⦄ where
  pub expire_known-outside :
      (now : Time) (id scope : Str) (e : Engine) (found : Option Entity × Bool)
      → InBatch e
      → outside (expire_known now id scope e found).0 ≡ outside e
  unfolding expire_known
  expire_known-outside now id scope e (none, deleted) h = refl
  expire_known-outside now id scope e (some ent, true) h = refl
  expire_known-outside now id scope e (some ent, false) h =
      let ev = expiry_event now ent scope e in
      let r = commit now ev false (record e { minted = e.minted + 1 }) in
      let one = commit-outside now ev false (record e { minted = e.minted + 1 }) h in
      elim (Bool-cases r.1) [
        | inl q ↦ rw q (remove_incident_relations-outside now now id _ (still e r.0 one h) ∙ one)
        | inr q ↦ rw q one
      ]

  pub expire_entities-outside :
      (now : Time) (ids : Dict Str Str) (e : Engine)
      → InBatch e
      → outside (expire_entities now ids e).0 ≡ outside e
  unfolding expire_entities
  expire_entities-outside now [] e h = refl
  expire_entities-outside now ((id, scope) ∷ ids) e h =
      let r = expire_known now id scope e (get_entity e.graph id) in
      let one = expire_known-outside now id scope e (get_entity e.graph id) h in
      expire_entities-outside now ids r.0 (still e r.0 one h) ∙ one

  expire_parked-outside :
      (now : Time) (ps : List PendingRelation) (e : Engine)
      → outside (expire_parked now ps e).0 ≡ outside e
  unfolding expire_parked
  expire_parked-outside now [] e = refl
  expire_parked-outside now (p ∷ ps) e = elim (Bool-cases (ltb p.deadline now)) [
    | inl q ↦ rw q (expire_parked-outside now ps _ ∙ drop_pending_relation-outside e p.obs)
    | inr q ↦ rw q (expire_parked-outside now ps e)
  ]

  pub expire_pending-outside :
      (now : Time) (e : Engine) → outside (expire_pending now e) ≡ outside e
  unfolding expire_pending rebuild_pending_hashes
  expire_pending-outside now e = elim (Bool-cases (is_empty e.pending)) [
    | inl q ↦ rw q refl
    | inr q ↦ rw q (expire_parked-outside now e.pending e)
  ]

  drop_edge-outside : (id : Str) (r : Engine × Outcome) → outside (drop_edge id r).0 ≡ outside r.0
  unfolding drop_edge
  drop_edge-outside id (e, emitted ev) = refl
  drop_edge-outside id (e, nothing) = refl
  drop_edge-outside id (e, endpoint_missing) = refl
  drop_edge-outside id (e, endpoints_collapsed) = refl
  drop_edge-outside id (e, commit_error) = refl

  pub expire_edge-outside :
      (now : Time) (id : Str) (e : Engine) (rel : Option Relation)
      → InBatch e
      → outside (expire_edge now id e rel).0 ≡ outside e
  unfolding expire_edge
  expire_edge-outside now id e none h = refl
  expire_edge-outside now id e (some rel) h =
      drop_edge-outside id
        (commit_relation now relation_removed rel now source_liveness_expiry rel.structural e)
      ∙ commit_relation-outside now relation_removed rel now source_liveness_expiry _ e h

  expire_relations-outside :
      (now : Time) (ids : Dict Str Str) (e : Engine)
      → InBatch e
      → outside (expire_relations now ids e).0 ≡ outside e
  unfolding expire_relations
  expire_relations-outside now [] e h = refl
  expire_relations-outside now ((id, scope) ∷ ids) e h =
      let r = expire_edge now id e (get_relation e.graph id) in
      let one = expire_edge-outside now id e (get_relation e.graph id) h in
      expire_relations-outside now ids r.0 (still e r.0 one h) ∙ one

  sweep_staged-seen : (now : Time) (e : Engine) → seen (sweep_staged now e).0 ≡ seen e
  unfolding sweep_staged
  sweep_staged-seen now e =
      let e0 : Engine = record e { staged = some new_staged; refs = drop_refs now e.refs } in
      let e1 = (expire_entities now (orphaned now e.refs) e0).0 in
      let p1 = expire_entities-outside now (orphaned now e.refs) e0 refl in
      let e2 = expire_pending now e1 in
      let p2 = expire_pending-outside now e1 ∙ p1 in
      let e2' : Engine = record e2 { rel_refs = drop_refs now e2.rel_refs } in
      let p3 = expire_relations-outside now (orphaned now e2.rel_refs) e2' (still e0 e2 p2 refl) in
      shown e0 (expire_relations now (orphaned now e2.rel_refs) e2').0 (p3 ∙ p2)

  -- On a log whose sequence numbers rise a sweep is all or nothing: either the events that its
  -- passes staged, stamped, stand at the end of the log, exactly them were folded into the
  -- projection and sent, and its counts and its error are those of the passes; or its flush failed,
  -- it reports an error and no expiry, and changed neither log, projection nor subscribers. Either
  -- way the projection then loses the tombstones past their time.
  pub sweep-atomic :
      (now : Time) (e : Engine)
      → IsSequential e.store
      → let r = sweep now e in
        let passes = sweep_staged now e in
        ((flushed : Engine) × (out : List Event) × Followed now e flushed
            (staged_events passes.0)
            out
          × (r.0 ≡ tidy now flushed)
          × (r.1 ≡ passes.1)
          × (r.2 ≡ passes.2))
        ⊎ ((flushed : Engine) × Untouched e flushed
            × (r.0 ≡ tidy now flushed)
            × (r.1.entities + r.1.relations ≡ 0)
            × (r.2 ≡ false))
  unfolding sweep
  sweep-atomic now e q =
      let s = (sweep_staged now e).0 in
      let p = sweep_staged-seen now e in
      let f = flush_staged now (staged_of s.staged) s in
      elim (Bool-cases f.1) [
        | inl h ↦
            let (out, followed) = flush-carried now (staged_of s.staged) e s p q h in
            inl (f.0, out, followed, refl, rw h refl, rw h (and_true (sweep_staged now e).2))
        | inr h ↦ inr (
          f.0,
          flush-Untouched now (staged_of s.staged) e s p h,
          refl,
          rw h refl,
          rw h (and_false (sweep_staged now e).2),
        )
      ]
