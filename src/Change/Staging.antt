-- ===== src/Change/Staging.antt =====
-- The unit of work of internal/change/engine.go: while a batch is open, no operation touches the
-- projection, the log or the subscribers, so that a batch whose append fails has no effect there.
pub mod Edges
pub mod Nodes
use toise.Model.Event.{DeleteSource, source_unknown, Event, Time}
use toise.Change.Engine.{current_scope, set_current_scope, Engine, commit}
use toise.Model.Validate.{new_relation}
use toise.Change.Relations.{
  Endpoints, Outcome, alias_belief_live, arm_relation, rebuild_pending_hashes, report_discard,
  commit_relation, drop_pending_relation, emit_change, flush_each, flush_pending, observe_ends,
  observe_relation_locked, retried, retry_pending, nothing, emitted, endpoint_missing,
  endpoints_collapsed, commit_error, ends, missing, collapsed,
}
use toise.Model.Entity.{Relation, ChangeType}
use toise.Common.{
  is_empty, ltb, sym, ℕ, ◌≡◌, refl, ap, ◌∙◌, Bool, true, false, Option, none, some, List, [], ◌∷◌,
  ◌++◌, Str, str_Eq, is_some, Option-cases, Bool-cases, inl, inr,
}
use toise.Change.State.{PendingRelation, RelationObservation, Staged}
use toise.Store.{Store}
use toise.Projection.Graph.{Graph}
use toise.Model.Value.{Runtime}
use toise.Change.Entities.{entity_event, arm_entity, wake_pending, observe_entity_locked}
use toise.Change.Deletion.{emit_deletion, release_entity, delete_found, delete_entity_locked}
use toise.Change.Reconcile.{
  record_claim_at, record_claimed, record_alias_locked, make_room, park, buffer_outcome,
  observe_relation_buffered,
}

-- What a reader outside the engine can see, and whether a batch is open.
abbrev pub outside : Engine → Graph × Store × List Bool × List (Event × Bool) × Bool
outside e = (e.graph, e.store, e.disk, e.notified, is_some e.staged)

abbrev pub InBatch : Engine → Type 0
InBatch e = is_some e.staged ≡ true

pub still : (e e' : Engine) → outside e' ≡ outside e → InBatch e → InBatch e'
still e e' p h = ap (λ r. r.4) p ∙ h

pub is_some-none : (o : Option Staged) → o ≡ none → is_some o ≡ true → true ≡ false
is_some-none none p h = sym h
is_some-none (some st) p h = cc

module _ ⦃runtime : Runtime⦄ where
  commit_staged :
      (now : Time) (ev : Event) (hp : Bool) (e : Engine) (st : Staged)
      → e.staged ≡ some st
      → outside (commit now ev hp e).0 ≡ outside e
  unfolding commit
  commit_staged now ev hp e st p = rw p refl

  pub commit-outside :
      (now : Time) (ev : Event) (hp : Bool) (e : Engine)
      → InBatch e
      → outside (commit now ev hp e).0 ≡ outside e
  commit-outside now ev hp e h = elim (Option-cases e.staged) [
    | inl p ↦ cc (is_some-none e.staged p h)
    | inr (st, p) ↦ commit_staged now ev hp e st p
  ]

  pub commit_relation-outside :
      (now : Time) (ct : ChangeType) (rel : Relation) (t : Time) (source : DeleteSource) (hp : Bool)
      (e : Engine)
      → InBatch e
      → outside (commit_relation now ct rel t source hp e).0 ≡ outside e
  unfolding commit_relation
  commit_relation-outside now ct rel t source hp e h = commit-outside now _ hp _ h

  emit_change-outside :
      (now : Time) (obs : RelationObservation) (rel : Relation) (e : Engine)
      (ct : Option ChangeType)
      → InBatch e
      → outside (emit_change now obs rel e ct).0 ≡ outside e
  unfolding emit_change
  emit_change-outside now obs rel e none h = refl
  emit_change-outside now obs rel e (some ct) h =
      commit_relation-outside now ct rel obs.event_time source_unknown _ e h

  observe_ends-outside :
      (now : Time) (obs : RelationObservation) (e : Engine) (ends : Endpoints)
      → InBatch e
      → outside (observe_ends now obs e ends).0 ≡ outside e
  unfolding observe_ends arm_relation
  observe_ends-outside now obs e missing h = refl
  observe_ends-outside now obs e collapsed h = refl
  observe_ends-outside now obs e (ends from to) h =
      emit_change-outside now obs (new_relation obs.type from to obs.attributes)
        (arm_relation now obs from (new_relation obs.type from to obs.attributes).id e) _ h

  pub observe_relation_locked-outside :
      (now : Time) (obs : RelationObservation) (e : Engine)
      → InBatch e
      → outside (observe_relation_locked now obs e).0 ≡ outside e
  unfolding observe_relation_locked
  observe_relation_locked-outside now obs e h = observe_ends-outside now obs e _ h

  pub drop_pending_relation-outside :
      (e : Engine) (obs : RelationObservation) → outside (drop_pending_relation e obs) ≡ outside e
  unfolding drop_pending_relation report_discard
  drop_pending_relation-outside e obs = elim (Bool-cases (alias_belief_live e obs)) [
    | inl p ↦ rw p refl
    | inr p ↦ rw p refl
  ]

  pub set_current_scope-outside :
      (e : Engine) (scope : Str) → outside (set_current_scope e scope) ≡ outside e
  unfolding set_current_scope
  set_current_scope-outside e scope = elim (Option-cases e.staged) [
    | inl p ↦ rw p refl
    | inr (st, p) ↦ rw p refl
  ]

  retried-outside :
      (p : PendingRelation) (r : Engine × Outcome) → outside (retried p r).0 ≡ outside r.0
  unfolding retried
  retried-outside p (e, nothing) = refl
  retried-outside p (e, emitted ev) = refl
  retried-outside p (e, endpoints_collapsed) = drop_pending_relation-outside e p.obs
  retried-outside p (e, endpoint_missing) = refl
  retried-outside p (e, commit_error) = refl

  retry_pending-outside :
      (now : Time) (p : PendingRelation) (e : Engine)
      → InBatch e
      → outside (retry_pending now p e).0 ≡ outside e
  unfolding retry_pending
  retry_pending-outside now p e h = elim (Bool-cases (ltb p.deadline now)) [
    | inl q ↦ rw q (drop_pending_relation-outside e p.obs)
    | inr q ↦
        let s = set_current_scope e p.scope in
        let scoped = set_current_scope-outside e p.scope in
        let r = observe_relation_locked now p.obs s in
        rw q (
          retried-outside p (set_current_scope r.0 (current_scope e), r.1)
          ∙ set_current_scope-outside r.0 (current_scope e)
          ∙ observe_relation_locked-outside now p.obs s (still e s scoped h)
          ∙ scoped)
  ]

  flush_each-outside :
      (now : Time) (ps : List PendingRelation) (e : Engine)
      → InBatch e
      → outside (flush_each now ps e).0 ≡ outside e
  unfolding flush_each
  flush_each-outside now [] e h = refl
  flush_each-outside now (p ∷ ps) e h =
      let e' = (retry_pending now p e).0 in
      let one = retry_pending-outside now p e h in
      flush_each-outside now ps e' (still e e' one h) ∙ one

  pub flush_pending-outside :
      (now : Time) (e : Engine) → InBatch e → outside (flush_pending now e) ≡ outside e
  unfolding flush_pending rebuild_pending_hashes
  flush_pending-outside now e h = elim (Bool-cases (is_empty e.pending)) [
    | inl q ↦ rw q refl
    | inr q ↦ rw q (flush_each-outside now e.pending e h)
  ]
