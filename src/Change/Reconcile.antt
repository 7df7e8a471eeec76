-- ===== src/Change/Reconcile.antt =====
-- The outer relation operations of internal/change/engine.go and alias.go: recording an alias,
-- parking an edge whose endpoint is missing, and removal.
use toise.Change.Liveness.{holds-not_empty, get-release_speaker, is_legacy_of, release_speaker}
use toise.Common.{
  ap, ◌∙◌, is_empty, ◌+◌, ◌≡◌, refl, false, Option, none, some, List, [], ◌∷◌, ◌++◌, if◌then◌else◌,
  ltb, leb, length, max, Str, str_Eq, ◌==◌,
}
use toise.Common.Dict.{Distinct, get, put, remove}
use toise.Model.Value.{Runtime}
use toise.Model.Entity.{Relation, relation_removed, compute_relation_id}
use toise.Model.Event.{Time, source_producer}
use toise.Change.State.{RelationObservation, PendingRelation, Speakers, LiveRef}
use toise.Change.RefKey.{ref_key}
use toise.Change.Alias.{AliasClaimKey, record_claim, alias_claim_from_observation, alias_deadline}
use toise.Change.Staged.{overlay_get_relation}
use toise.Change.Engine.{Engine, current_scope}
use toise.Change.Relations.{
  Outcome, nothing, endpoint_missing, endpoints_collapsed, Endpoints, ends, missing, collapsed,
  max_pending_relations, rel_same_as, report_discard, resolve_endpoints, commit_relation,
  observe_relation_locked, drop_pending_relation, rebuild_pending_hashes, flush_pending,
}

module _ ⦃runtime : Runtime⦄ where
  -- The claim under its speaker; a new ambiguity is reported, and parked edges are retried.
  unfoldable pub record_claim_at :
      Time → RelationObservation → Engine → AliasClaimKey → Option Time → Engine
  record_claim_at now obs e claim none = e
  record_claim_at now obs e claim (some deadline) =
      let ref : LiveRef = record { deadline = deadline; interval = 0; legacy = false } in
      let (index, is_new, conflict) =
        record_claim e.aliases claim (ref_key obs.producer (current_scope e)) ref in
      let e' : Engine = record e {
        aliases = index;
        conflicts = if conflict then e.conflicts ++ claim.alias ∷ [] else e.conflicts;
      } in
      if is_empty e'.pending then e' else flush_pending now (rebuild_pending_hashes e')

  unfoldable pub record_claimed :
      Time → RelationObservation → Engine → Option AliasClaimKey → Engine
  unfolding record_claim_at
  record_claimed now obs e none = e
  record_claimed now obs e (some claim) = record_claim_at now obs e claim (alias_deadline now obs)

  unfoldable pub record_alias_locked : Time → RelationObservation → Engine → Engine
  unfolding record_claimed
  record_alias_locked now obs e = record_claimed now obs e (alias_claim_from_observation obs)

  -- A full buffer gives up its oldest edge.
  unfoldable pub make_room : Engine → List PendingRelation → Engine
  make_room e [] = e
  make_room e (oldest ∷ pending) =
      if leb max_pending_relations (length e.pending)
      then report_discard (record e { pending = pending }) oldest.obs
      else e

  unfoldable pub park : Time → RelationObservation → Engine → Engine
  unfolding make_room
  park now obs e =
      let e' = make_room e e.pending in
      let parked : PendingRelation = record {
        obs = obs;
        deadline = now + max e.buffer_ttl obs.source_interval;
        scope = current_scope e';
      } in
      rebuild_pending_hashes (record e' { pending = e'.pending ++ parked ∷ [] })

  unfoldable pub buffer_outcome : Time → RelationObservation → Engine × Outcome → Engine × Outcome
  unfolding park
  buffer_outcome now obs (e, endpoints_collapsed) = (drop_pending_relation e obs, nothing)
  buffer_outcome now obs (e, endpoint_missing) =
      if ltb 0 e.buffer_ttl then (park now obs e, nothing) else (e, endpoint_missing)
  buffer_outcome now obs (e, outcome) = (e, outcome)

  -- The belief of a same_as is recorded before its edge is observed.
  unfoldable pub observe_relation_buffered : Time → RelationObservation → Engine → Engine × Outcome
  unfolding buffer_outcome record_alias_locked
  observe_relation_buffered now obs e =
      let e' = if obs.type == rel_same_as then record_alias_locked now obs e else e in
      buffer_outcome now obs (observe_relation_locked now obs e')

  -- The removal event of an edge that is still known.
  unfoldable pub remove_existing :
      Time → RelationObservation → Option Relation → Engine → Engine × Outcome
  remove_existing now obs none e = (e, nothing)
  remove_existing now obs (some rel) e =
      commit_relation now relation_removed rel obs.event_time source_producer rel.structural e

  -- The edge goes when its last speaker has released it.
  unfoldable pub release_relation :
      Time → RelationObservation → Str → Option Speakers → Engine → Engine × Outcome
  unfolding remove_existing
  release_relation now obs rid none e =
      remove_existing now obs (overlay_get_relation e.staged e.graph rid) e
  release_relation now obs rid (some speakers) e =
      let left = release_speaker speakers obs.producer (current_scope e) in
      if is_empty left
      then remove_existing now obs (overlay_get_relation e.staged e.graph rid)
          (record e { rel_refs = remove e.rel_refs rid })
      else (record e { rel_refs = put e.rel_refs rid left }, nothing)

  unfoldable pub remove_ends : Time → RelationObservation → Engine → Endpoints → Engine × Outcome
  unfolding release_relation
  remove_ends now obs e missing = (e, nothing)
  remove_ends now obs e collapsed = (e, endpoints_collapsed)
  remove_ends now obs e (ends from to) =
      let rid = compute_relation_id obs.type from to in
      release_relation now obs rid (get e.rel_refs rid) e

  unfoldable pub remove_relation_locked : Time → RelationObservation → Engine → Engine × Outcome
  unfolding remove_ends
  remove_relation_locked now obs e = remove_ends now obs e (resolve_endpoints e obs.from obs.to)

  -- A retraction never removes an edge that another speaker still asserts: while another key holds
  -- a reference, which is not a legacy one of the same producer, a removal emits nothing, changes
  -- nothing but the references, and leaves that reference as it was.
  pub remove_relation_locked-keeps :
      (now : Time) (obs : RelationObservation) (e : Engine) (from to : Str) (speakers : Speakers)
      (key : Str) (ref : LiveRef)
      → resolve_endpoints e obs.from obs.to ≡ ends from to
      → get e.rel_refs (compute_relation_id obs.type from to) ≡ some speakers
      → Distinct speakers
      → get speakers key ≡ some ref
      → (ref_key obs.producer (current_scope e) == key) ≡ false
      → is_legacy_of obs.producer (key, ref) ≡ false
      → (left : Speakers) × (remove_relation_locked now obs e ≡ (
        record e { rel_refs = put e.rel_refs (compute_relation_id obs.type from to) left },
        nothing,
      ))
        × (get left key ≡ some ref)
  unfolding remove_relation_locked remove_ends
  remove_relation_locked-keeps now obs e from to speakers key ref m s d g own legacy =
      let rid = compute_relation_id obs.type from to in
      let left = release_speaker speakers obs.producer (current_scope e) in
      let stays : get left key ≡ some ref =
        get-release_speaker speakers obs.producer (current_scope e) key d
        ∙ rw (own, g, legacy) refl in
      (
        left,
        ap (remove_ends now obs e) m
            ∙ ap (λ o. release_relation now obs rid o e) s
            ∙ rw (holds-not_empty left key ref stays, release_relation) refl,
        stays,
      )
