-- ===== src/Change/Deletion.antt =====
-- The deletion of internal/change/engine.go, and what a retraction leaves while another speaker
-- still asserts the entity.
use toise.Change.Liveness.{holds-not_empty, release_speaker, get-release_speaker, is_legacy_of}
use toise.Common.{
  is_empty, ◌+◌, ◌≡◌, refl, Bool, true, false, Option, none, some, [], if◌then◌else◌, Str, str_Eq,
  ◌==◌, ◌∙◌, ap,
}
use toise.Common.Dict.{get, put, remove, Distinct}
use toise.Model.Value.{Runtime}
use toise.Model.Entity.{entity_deleted}
use toise.Model.Event.{Event, Time, source_producer, of_entity, schema_version}
use toise.Change.State.{EntityObservation, Speakers, LiveRef}
use toise.Change.RefKey.{ref_key}
use toise.Change.Engine.{Engine, current_scope, commit}
use toise.Change.Relations.{match_id}
use toise.Change.Entities.{remove_incident_relations}

module _ ⦃runtime : Runtime⦄ where
  unfoldable pub deletion_event : Time → EntityObservation → Str → Engine → Event
  deletion_event now obs id e = of_entity (record {
    event_id = runtime.ulid e.minted;
    change_type = entity_deleted;
    entity = record {
      id = id;
      type = obs.type;
      identity = obs.identity;
      attributes = obs.attributes;
      schema_url = obs.schema_url;
    };
    event_time = obs.event_time;
    recorded_at = now;
    commit_seq = 0;
    scope = current_scope e;
    schema_version = schema_version;
    changed_keys = [];
    delete_reason = obs.delete_reason;
    delete_source = source_producer;
  })

  -- The event of the deletion, if one was emitted, and whether no error came up; a failed cascade
  -- is an error beside the event.
  unfoldable pub emit_deletion :
      Time → EntityObservation → Str → Engine → Engine × Option Event × Bool
  unfolding deletion_event
  emit_deletion now obs id e =
      let ev = deletion_event now obs id e in
      let (e', ok) = commit now ev false (record e { minted = e.minted + 1 }) in
      if ok
      then (let (e'', n, clean) = remove_incident_relations now obs.event_time id e' in
          (e'', some ev, clean))
      else (e', none, false)

  unfoldable pub release_entity :
      Time → EntityObservation → Str → Option Speakers → Engine → Engine × Option Event × Bool
  unfolding emit_deletion
  release_entity now obs id none e = emit_deletion now obs id e
  release_entity now obs id (some speakers) e =
      let left = release_speaker speakers obs.producer (current_scope e) in
      if is_empty left
      then emit_deletion now obs id (record e { refs = remove e.refs id })
      else (record e { refs = put e.refs id left }, none, true)

  unfoldable pub delete_found :
      Time → EntityObservation → Engine → Option Str → Engine × Option Event × Bool
  unfolding release_entity
  delete_found now obs e none = (e, none, true)
  delete_found now obs e (some id) = release_entity now obs id (get e.refs id) e

  unfoldable pub delete_entity_locked :
      Time → EntityObservation → Engine → Engine × Option Event × Bool
  unfolding delete_found
  delete_entity_locked now obs e = delete_found now obs e (match_id e obs.type obs.identity)

  -- A retraction never deletes an entity that another speaker still asserts: while another key
  -- holds a reference, which is not a legacy one of the same producer, a deletion emits nothing,
  -- reports no error, changes nothing but the references, and leaves that reference as it was.
  pub delete_entity_locked-keeps :
      (now : Time) (obs : EntityObservation) (e : Engine) (id : Str) (speakers : Speakers)
      (key : Str) (ref : LiveRef)
      → match_id e obs.type obs.identity ≡ some id
      → get e.refs id ≡ some speakers
      → Distinct speakers
      → get speakers key ≡ some ref
      → (ref_key obs.producer (current_scope e) == key) ≡ false
      → is_legacy_of obs.producer (key, ref) ≡ false
      → (left : Speakers) × (delete_entity_locked now obs e
          ≡ (record e { refs = put e.refs id left }, none, true))
        × (get left key ≡ some ref)
  unfolding delete_entity_locked delete_found
  delete_entity_locked-keeps now obs e id speakers key ref m s d g own legacy =
      let left = release_speaker speakers obs.producer (current_scope e) in
      let stays : get left key ≡ some ref =
        get-release_speaker speakers obs.producer (current_scope e) key d
        ∙ rw (own, g, legacy) refl in
      (
        left,
        ap (delete_found now obs e) m
            ∙ ap (λ o. release_entity now obs id o e) s
            ∙ rw (holds-not_empty left key ref stays, release_entity) refl,
        stays,
      )
