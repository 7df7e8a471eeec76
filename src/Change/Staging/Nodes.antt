-- ===== src/Change/Staging/Nodes.antt =====
-- The entity operations of internal/change/engine.go in a batch.
use toise.Common.{[], true, ◌+◌, if◌then◌else◌, str_Eq, ◌≡◌, refl, ◌∙◌}
use toise.Change.Entities.{
  list_relations_touching, classify_observation, entity_event, arm_entity, wake_pending,
  observe_entity_locked, remove_each, remove_incident_relations, is_emitted,
}
use toise.Change.Staging.{
  commit_relation-outside, flush_pending-outside, inr, inl, is_empty, none, false, some, ◌∷◌, Bool,
  Bool-cases, Option, Relation, List, Str, outside, InBatch, still, commit-outside,
}
use toise.Model.Event.{source_cascade, Event, Time}
use toise.Change.Engine.{current_scope, Engine, commit}
use toise.Model.Entity.{relation_removed, identity_hash}
use toise.Change.Liveness.{release_speaker}
use toise.Change.Relations.{commit_relation}
use toise.Change.State.{Speakers, EntityObservation}
use toise.Common.Dict.{has}
use toise.Change.Deletion.{
  deletion_event, emit_deletion, release_entity, delete_found, delete_entity_locked,
}
use toise.Model.Value.{Runtime}

module _ ⦃runtime : Runtime⦄ where
  wake_pending-outside :
      (now : Time) (obs : EntityObservation) (e : Engine)
      → InBatch e
      → outside (wake_pending now obs e) ≡ outside e
  unfolding wake_pending
  wake_pending-outside now obs e h =
      elim (Bool-cases (has e.pending_hashes (identity_hash obs.type obs.identity))) [
        | inl q ↦ rw q (flush_pending-outside now e h)
        | inr q ↦ rw q refl
      ]

  observed : Time → EntityObservation → Str → Event → Engine × Bool → Engine × Option Event
  observed now obs id ev (e, ok) =
      if ok then (wake_pending now obs (arm_entity now obs id e), some ev) else (e, none)

  observed-outside :
      (now : Time) (obs : EntityObservation) (id : Str) (ev : Event) (r : Engine × Bool)
      → InBatch r.0
      → outside (observed now obs id ev r).0 ≡ outside r.0
  unfolding observed arm_entity
  observed-outside now obs id ev (e, true) h = wake_pending-outside now obs _ h
  observed-outside now obs id ev (e, false) h = refl

  pub observe_entity_locked-outside :
      (now : Time) (obs : EntityObservation) (e : Engine)
      → InBatch e
      → outside (observe_entity_locked now obs e).0 ≡ outside e
  unfolding observe_entity_locked observed
  observe_entity_locked-outside now obs e h =
      let c = classify_observation now obs e in
      let n = if c.is_new then e.minted + 1 else e.minted in
      let ev = entity_event now obs c n (current_scope e) in
      let s : Engine = record e { minted = n + 1 } in
      let one = commit-outside now ev false s h in
      observed-outside now obs c.id ev (commit now ev false s)
        (still e (commit now ev false s).0 one h)
      ∙ one

  remove_each-outside :
      (now when : Time) (rels : List Relation) (e : Engine)
      → InBatch e
      → outside (remove_each now when rels e).0 ≡ outside e
  unfolding remove_each
  remove_each-outside now when [] e h = refl
  remove_each-outside now when (rel ∷ rels) e h =
      let r = commit_relation now relation_removed rel when source_cascade rel.structural e in
      let one =
        commit_relation-outside now relation_removed rel when source_cascade rel.structural e h in
      elim (Bool-cases (is_emitted r.1)) [
        | inl q ↦ rw q (remove_each-outside now when rels _ (still e r.0 one h) ∙ one)
        | inr q ↦ rw q (remove_each-outside now when rels _ (still e r.0 one h) ∙ one)
      ]

  pub remove_incident_relations-outside :
      (now when : Time) (id : Str) (e : Engine)
      → InBatch e
      → outside (remove_incident_relations now when id e).0 ≡ outside e
  unfolding remove_incident_relations
  remove_incident_relations-outside now when id e h =
      remove_each-outside now when (list_relations_touching e id) e h

  emit_deletion-outside :
      (now : Time) (obs : EntityObservation) (id : Str) (e : Engine)
      → InBatch e
      → outside (emit_deletion now obs id e).0 ≡ outside e
  unfolding emit_deletion
  emit_deletion-outside now obs id e h =
      let ev = deletion_event now obs id e in
      let r = commit now ev false (record e { minted = e.minted + 1 }) in
      let one = commit-outside now ev false (record e { minted = e.minted + 1 }) h in
      elim (Bool-cases r.1) [
        | inl q ↦
            rw q (
              remove_incident_relations-outside now obs.event_time id r.0 (still e r.0 one h) ∙ one)
        | inr q ↦ rw q one
      ]

  release_entity-outside :
      (now : Time) (obs : EntityObservation) (id : Str) (refs : Option Speakers) (e : Engine)
      → InBatch e
      → outside (release_entity now obs id refs e).0 ≡ outside e
  unfolding release_entity
  release_entity-outside now obs id none e h = emit_deletion-outside now obs id e h
  release_entity-outside now obs id (some refs) e h =
      elim (Bool-cases (is_empty (release_speaker refs obs.producer (current_scope e)))) [
        | inl q ↦ rw q (emit_deletion-outside now obs id _ h)
        | inr q ↦ rw q refl
      ]

  delete_found-outside :
      (now : Time) (obs : EntityObservation) (e : Engine) (id : Option Str)
      → InBatch e
      → outside (delete_found now obs e id).0 ≡ outside e
  unfolding delete_found
  delete_found-outside now obs e none h = refl
  delete_found-outside now obs e (some id) h = release_entity-outside now obs id _ e h

  pub delete_entity_locked-outside :
      (now : Time) (obs : EntityObservation) (e : Engine)
      → InBatch e
      → outside (delete_entity_locked now obs e).0 ≡ outside e
  unfolding delete_entity_locked
  delete_entity_locked-outside now obs e h = delete_found-outside now obs e _ h
