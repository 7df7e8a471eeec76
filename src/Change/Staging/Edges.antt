-- ===== src/Change/Staging/Edges.antt =====
-- The relation operations of internal/change/engine.go in a batch.
use toise.Model.Event.{source_producer, Time}
use toise.Common.{[], none, length, leb, ◌==◌, str_Eq, ◌≡◌, refl, ◌∙◌}
use toise.Model.Entity.{relation_removed}
use toise.Change.Staging.{
  flush_pending-outside, inr, inl, commit_relation-outside, is_empty, ltb, ◌∷◌, PendingRelation,
  Relation, drop_pending_relation-outside, observe_relation_locked-outside, some, Bool-cases, List,
  Option, Str, RelationObservation, outside, InBatch, still,
}
use toise.Change.Engine.{current_scope, Engine}
use toise.Change.Relations.{
  max_pending_relations, rel_same_as, Endpoints, Outcome, observe_relation_locked,
  rebuild_pending_hashes, report_discard, nothing, emitted, endpoint_missing, endpoints_collapsed,
  commit_error, ends, missing, collapsed,
}
use toise.Change.Liveness.{release_speaker}
use toise.Change.Alias.{alias_deadline, AliasClaimKey}
use toise.Change.State.{Speakers}
use toise.Model.Value.{Runtime}
use toise.Change.Reconcile.{
  record_claim_at, record_claimed, record_alias_locked, make_room, park, buffer_outcome,
  observe_relation_buffered, release_relation, remove_ends, remove_existing, remove_relation_locked,
}

module _ ⦃runtime : Runtime⦄ where
  record_claim_at-outside :
      (now : Time) (obs : RelationObservation) (e : Engine) (claim : AliasClaimKey)
      (d : Option Time)
      → InBatch e
      → outside (record_claim_at now obs e claim d) ≡ outside e
  unfolding record_claim_at rebuild_pending_hashes
  record_claim_at-outside now obs e claim none h = refl
  record_claim_at-outside now obs e claim (some d) h = elim (Bool-cases (is_empty e.pending)) [
    | inl q ↦ rw q refl
    | inr q ↦ rw q (flush_pending-outside now _ h)
  ]

  record_claimed-outside :
      (now : Time) (obs : RelationObservation) (e : Engine) (claim : Option AliasClaimKey)
      → InBatch e
      → outside (record_claimed now obs e claim) ≡ outside e
  unfolding record_claimed
  record_claimed-outside now obs e none h = refl
  record_claimed-outside now obs e (some claim) h =
      record_claim_at-outside now obs e claim (alias_deadline now obs) h

  record_alias_locked-outside :
      (now : Time) (obs : RelationObservation) (e : Engine)
      → InBatch e
      → outside (record_alias_locked now obs e) ≡ outside e
  unfolding record_alias_locked
  record_alias_locked-outside now obs e h = record_claimed-outside now obs e _ h

  make_room-outside :
      (e : Engine) (ps : List PendingRelation) → outside (make_room e ps) ≡ outside e
  unfolding make_room report_discard
  make_room-outside e [] = refl
  make_room-outside e (p ∷ ps) = elim (Bool-cases (leb max_pending_relations (length e.pending))) [
    | inl q ↦ rw q refl
    | inr q ↦ rw q refl
  ]

  park-outside :
      (now : Time) (obs : RelationObservation) (e : Engine) → outside (park now obs e) ≡ outside e
  unfolding park rebuild_pending_hashes
  park-outside now obs e = make_room-outside e e.pending

  buffer_outcome-outside :
      (now : Time) (obs : RelationObservation) (r : Engine × Outcome)
      → outside (buffer_outcome now obs r).0 ≡ outside r.0
  unfolding buffer_outcome
  buffer_outcome-outside now obs (e, nothing) = refl
  buffer_outcome-outside now obs (e, emitted ev) = refl
  buffer_outcome-outside now obs (e, commit_error) = refl
  buffer_outcome-outside now obs (e, endpoints_collapsed) = drop_pending_relation-outside e obs
  buffer_outcome-outside now obs (e, endpoint_missing) = elim (Bool-cases (ltb 0 e.buffer_ttl)) [
    | inl q ↦ rw q (park-outside now obs e)
    | inr q ↦ rw q refl
  ]

  buffer_observed-outside :
      (now : Time) (obs : RelationObservation) (e : Engine)
      → InBatch e
      → outside (buffer_outcome now obs (observe_relation_locked now obs e)).0 ≡ outside e
  buffer_observed-outside now obs e h =
      buffer_outcome-outside now obs (observe_relation_locked now obs e)
      ∙ observe_relation_locked-outside now obs e h

  pub observe_relation_buffered-outside :
      (now : Time) (obs : RelationObservation) (e : Engine)
      → InBatch e
      → outside (observe_relation_buffered now obs e).0 ≡ outside e
  unfolding observe_relation_buffered
  observe_relation_buffered-outside now obs e h = elim (Bool-cases (obs.type == rel_same_as)) [
    | inl q ↦
        let e' = record_alias_locked now obs e in
        let p = record_alias_locked-outside now obs e h in
        rw q (buffer_observed-outside now obs e' (still e e' p h) ∙ p)
    | inr q ↦ rw q (buffer_observed-outside now obs e h)
  ]

  remove_existing-outside :
      (now : Time) (obs : RelationObservation) (rel : Option Relation) (e : Engine)
      → InBatch e
      → outside (remove_existing now obs rel e).0 ≡ outside e
  unfolding remove_existing
  remove_existing-outside now obs none e h = refl
  remove_existing-outside now obs (some rel) e h =
      commit_relation-outside now relation_removed rel obs.event_time source_producer _ e h

  release_relation-outside :
      (now : Time) (obs : RelationObservation) (rid : Str) (refs : Option Speakers) (e : Engine)
      → InBatch e
      → outside (release_relation now obs rid refs e).0 ≡ outside e
  unfolding release_relation
  release_relation-outside now obs rid none e h = remove_existing-outside now obs _ e h
  release_relation-outside now obs rid (some refs) e h =
      elim (Bool-cases (is_empty (release_speaker refs obs.producer (current_scope e)))) [
        | inl q ↦ rw q (remove_existing-outside now obs _ _ h)
        | inr q ↦ rw q refl
      ]

  remove_ends-outside :
      (now : Time) (obs : RelationObservation) (e : Engine) (ends : Endpoints)
      → InBatch e
      → outside (remove_ends now obs e ends).0 ≡ outside e
  unfolding remove_ends
  remove_ends-outside now obs e missing h = refl
  remove_ends-outside now obs e collapsed h = refl
  remove_ends-outside now obs e (ends from to) h = release_relation-outside now obs _ _ e h

  pub remove_relation_locked-outside :
      (now : Time) (obs : RelationObservation) (e : Engine)
      → InBatch e
      → outside (remove_relation_locked now obs e).0 ≡ outside e
  unfolding remove_relation_locked
  remove_relation_locked-outside now obs e h = remove_ends-outside now obs e _ h
