-- ===== src/Change/Buffer.antt =====
-- The reconciliation buffer of internal/change/engine.go never holds more than its limit.
use toise.Change.Relations.{
  rel_same_as, emit_change, ends, missing, collapsed, nothing, emitted, endpoint_missing,
  endpoints_collapsed, commit_error, Endpoints, Outcome, max_pending_relations, commit_relation,
  observe_ends, observe_relation_locked, drop_pending_relation, retried, retry_pending, flush_each,
  flush_pending, rebuild_pending_hashes, report_discard, arm_relation, alias_belief_live,
}
use toise.Change.Reconcile.{
  record_claimed, record_claim_at, record_alias_locked, make_room, park, buffer_outcome,
  observe_relation_buffered,
}
use toise.Common.{
  is_empty, str_Eq, ◌==◌, none, some, Option, length-append, ◌<◌, arith, ltb, ◌≡◌, refl, Bool, List,
  Option-cases, length, inl, ◌∷◌, ◌≤◌, Bool-cases, [], inr,
}
use toise.Model.Event.{source_unknown, DeleteSource, Event, Time}
use toise.Model.Validate.{new_relation}
use toise.Change.Alias.{alias_deadline, AliasClaimKey}
use toise.Store.{refused, appended, Appended}
use toise.Model.Entity.{Relation, ChangeType}
use toise.Change.State.{PendingRelation, RelationObservation}
use toise.Model.Value.{Runtime}
use toise.Change.Engine.{Engine, publish, settle, append_events, commit}

module _ ⦃runtime : Runtime⦄ where
  publish-pending :
      (now : Time) (evs : List Event) (hps : List Bool) (e : Engine)
      → (publish now evs hps e).pending ≡ e.pending
  unfolding publish
  publish-pending now [] hps e = refl
  publish-pending now (ev ∷ evs) [] e = refl
  publish-pending now (ev ∷ evs) (hp ∷ hps) e = publish-pending now evs hps _

  settle-pending :
      (now : Time) (hps : List Bool) (e : Engine) (a : Appended)
      → (settle now hps e a).0.pending ≡ e.pending
  unfolding settle
  settle-pending now hps e (appended s evs) = publish-pending now evs hps _
  settle-pending now hps e (refused err) = refl

  commit-pending :
      (now : Time) (ev : Event) (hp : Bool) (e : Engine)
      → (commit now ev hp e).0.pending ≡ e.pending
  unfolding commit append_events
  commit-pending now ev hp e = elim (Option-cases e.staged) [
    | inl p ↦ rw p (settle-pending now (hp ∷ []) _ _)
    | inr (st, p) ↦ rw p refl
  ]

  commit_relation-pending :
      (now : Time) (ct : ChangeType) (rel : Relation) (t : Time) (source : DeleteSource) (hp : Bool)
      (e : Engine)
      → (commit_relation now ct rel t source hp e).0.pending ≡ e.pending
  unfolding commit_relation
  commit_relation-pending now ct rel t source hp e = commit-pending now _ hp _

  emit_change-pending :
      (now : Time) (obs : RelationObservation) (rel : Relation) (e : Engine)
      (ct : Option ChangeType)
      → (emit_change now obs rel e ct).0.pending ≡ e.pending
  unfolding emit_change
  emit_change-pending now obs rel e none = refl
  emit_change-pending now obs rel e (some ct) =
      commit_relation-pending now ct rel obs.event_time source_unknown _ e

  observe_ends-pending :
      (now : Time) (obs : RelationObservation) (e : Engine) (ends : Endpoints)
      → (observe_ends now obs e ends).0.pending ≡ e.pending
  unfolding observe_ends arm_relation
  observe_ends-pending now obs e missing = refl
  observe_ends-pending now obs e collapsed = refl
  observe_ends-pending now obs e (ends from to) =
      emit_change-pending now obs (new_relation obs.type from to obs.attributes) _ _

  observe_relation_locked-pending :
      (now : Time) (obs : RelationObservation) (e : Engine)
      → (observe_relation_locked now obs e).0.pending ≡ e.pending
  unfolding observe_relation_locked
  observe_relation_locked-pending now obs e = observe_ends-pending now obs e _

  drop_pending_relation-pending :
      (e : Engine) (obs : RelationObservation) → (drop_pending_relation e obs).pending ≡ e.pending
  unfolding drop_pending_relation report_discard
  drop_pending_relation-pending e obs = elim (Bool-cases (alias_belief_live e obs)) [
    | inl p ↦ rw p refl
    | inr p ↦ rw p refl
  ]

  length-retried : (p : PendingRelation) (r : Engine × Outcome) → length (retried p r).1 ≤ 1
  unfolding retried
  length-retried p (e, nothing) = omega arith
  length-retried p (e, emitted ev) = omega arith
  length-retried p (e, endpoints_collapsed) = omega arith
  length-retried p (e, endpoint_missing) = omega arith
  length-retried p (e, commit_error) = omega arith

  length-retry_pending :
      (now : Time) (p : PendingRelation) (e : Engine) → length (retry_pending now p e).1 ≤ 1
  unfolding retry_pending
  length-retry_pending now p e = elim (Bool-cases (ltb p.deadline now)) [
    | inl q ↦ rw q (omega arith)
    | inr q ↦ rw q (length-retried p _)
  ]

  length-flush_each :
      (now : Time) (ps : List PendingRelation) (e : Engine)
      → length (flush_each now ps e).1 ≤ length ps
  unfolding flush_each
  length-flush_each now [] e = omega arith
  length-flush_each now (p ∷ ps) e =
      let r = retry_pending now p e in
      omega (
        arith,
        length-append r.1 (flush_each now ps r.0).1,
        length-retry_pending now p e,
        length-flush_each now ps r.0,
      )

  length-flush_pending :
      (now : Time) (e : Engine) → length (flush_pending now e).pending ≤ length e.pending
  unfolding flush_pending rebuild_pending_hashes
  length-flush_pending now e = elim (Bool-cases (is_empty e.pending)) [
    | inl q ↦ rw q (omega arith)
    | inr q ↦ rw q (length-flush_each now e.pending e)
  ]

  length-record_claim_at :
      (now : Time) (obs : RelationObservation) (e : Engine) (claim : AliasClaimKey)
      (d : Option Time)
      → length (record_claim_at now obs e claim d).pending ≤ length e.pending
  unfolding record_claim_at rebuild_pending_hashes
  length-record_claim_at now obs e claim none = omega arith
  length-record_claim_at now obs e claim (some d) = elim (Bool-cases (is_empty e.pending)) [
    | inl q ↦ rw q (omega arith)
    | inr q ↦ rw q (length-flush_pending now _)
  ]

  length-record_claimed :
      (now : Time) (obs : RelationObservation) (e : Engine) (claim : Option AliasClaimKey)
      → length (record_claimed now obs e claim).pending ≤ length e.pending
  unfolding record_claimed
  length-record_claimed now obs e none = omega arith
  length-record_claimed now obs e (some claim) =
      length-record_claim_at now obs e claim (alias_deadline now obs)

  length-record_alias_locked :
      (now : Time) (obs : RelationObservation) (e : Engine)
      → length (record_alias_locked now obs e).pending ≤ length e.pending
  unfolding record_alias_locked
  length-record_alias_locked now obs e = length-record_claimed now obs e _

  length-make_room :
      (e : Engine) (ps : List PendingRelation)
      → e.pending ≡ ps
      → length ps ≤ max_pending_relations
      → length (make_room e ps).pending < max_pending_relations
  unfolding make_room report_discard
  length-make_room e [] h le = ground (arith, h)
  length-make_room e (p ∷ ps) h le = ground (arith, h, le)

  length-park :
      (now : Time) (obs : RelationObservation) (e : Engine)
      → length e.pending ≤ max_pending_relations
      → length (park now obs e).pending ≤ max_pending_relations
  unfolding park rebuild_pending_hashes
  length-park now obs e le =
      let room = make_room e e.pending in
      omega (arith, length-append room.pending (_ ∷ []), length-make_room e e.pending refl le)

  length-buffer_outcome :
      (now : Time) (obs : RelationObservation) (r : Engine × Outcome)
      → length r.0.pending ≤ max_pending_relations
      → length (buffer_outcome now obs r).0.pending ≤ max_pending_relations
  unfolding buffer_outcome
  length-buffer_outcome now obs (e, nothing) le = le
  length-buffer_outcome now obs (e, emitted ev) le = le
  length-buffer_outcome now obs (e, commit_error) le = le
  length-buffer_outcome now obs (e, endpoints_collapsed) le =
      rw (drop_pending_relation-pending e obs) le
  length-buffer_outcome now obs (e, endpoint_missing) le = elim (Bool-cases (ltb 0 e.buffer_ttl)) [
    | inl q ↦ rw q (length-park now obs e le)
    | inr q ↦ rw q le
  ]

  length-buffer_observed :
      (now : Time) (obs : RelationObservation) (e : Engine)
      → length e.pending ≤ max_pending_relations
      → length (buffer_outcome now obs (observe_relation_locked now obs e)).0.pending
        ≤ max_pending_relations
  length-buffer_observed now obs e le =
      length-buffer_outcome now obs (observe_relation_locked now obs e)
        (rw (observe_relation_locked-pending now obs e) le)

  -- A relation observation, with all that it retries and parks, keeps the reconciliation buffer
  -- within its limit of 4096 edges.
  pub observe_relation_buffered-bounded :
      (now : Time) (obs : RelationObservation) (e : Engine)
      → length e.pending ≤ max_pending_relations
      → length (observe_relation_buffered now obs e).0.pending ≤ max_pending_relations
  unfolding observe_relation_buffered
  observe_relation_buffered-bounded now obs e le = elim (Bool-cases (obs.type == rel_same_as)) [
    | inl q ↦ rw q (
        length-buffer_observed now obs (record_alias_locked now obs e)
          (omega (arith, le, length-record_alias_locked now obs e)))
    | inr q ↦ rw q (length-buffer_observed now obs e le)
  ]
