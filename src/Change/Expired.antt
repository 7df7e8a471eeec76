-- ===== src/Change/Expired.antt =====
-- What the sweep of internal/change/engine.go promises: an entity that no producer backs is
-- expired.
use toise.Common.{
  In, In-right, all, is_empty, ◌+◌, ◌++◌, ◌≡◌, refl, ap, ◌∙◌, sym, subst, Bool-cases, true, false,
  none, some, inl, inr, List, [], ◌∷◌, map, Str, str_Eq, ℕ, suc, str_eq_iff, str_eq, arith,
}
use toise.Common.Dict.{Dict, get}
use toise.Model.Value.{Runtime}
use toise.Model.Entity.{Entity, entity_deleted}
use toise.Model.Event.{Event, EntityEvent, Time, source_liveness_expiry}
use toise.Projection.Reads.{get_entity}
use toise.Store.{stamp, events_of}
use toise.Store.Laws.{IsSequential, numbered, events_of-numbered, stamp-entity}
use toise.Change.State.{Speakers, Refs}
use toise.Change.Liveness.{is_lapsed, drop_lapsed}
use toise.Change.Staged.{new_staged}
use toise.Change.Engine.{Engine, commit}
use toise.Change.Atomicity.{staged_events}
use toise.Change.Staging.{InBatch, still, commit-outside}
use toise.Change.Sweep.{
  silence, scope_of, expiry_event, drop_refs, orphaned, sweep, sweep_staged, expire_known,
  expire_entities, expire_pending, tidy,
}
use toise.Change.Forgotten.{commit-done}
use toise.Change.Expiry.{
  sweep-atomic, expire_known-outside, expire_entities-outside, expire_pending-outside,
}
use toise.Change.Growth.{
  commit-adds, remove_incident_relations-IsIn, expire_entities-IsIn, expire_pending-IsIn,
  expire_relations-IsIn,
}

is_empty-drop_lapsed :
    (now : Time) (refs : Speakers)
    → is_empty (drop_lapsed now refs) ≡ all (λ entry. is_lapsed now entry.1) refs
unfolding drop_lapsed
is_empty-drop_lapsed now [] = refl
is_empty-drop_lapsed now (entry ∷ refs) = ground (arith, is_empty-drop_lapsed now refs)

-- An id whose references have all lapsed is among the orphaned ones.
orphaned_entry :
    (now : Time) (refs : Refs) (id : Str) (speakers : Speakers)
    → get refs id ≡ some speakers
    → all (λ entry. is_lapsed now entry.1) speakers ≡ true
    → (scope : Str) × In (id, scope) (orphaned now refs)
unfolding orphaned get
orphaned_entry now [] id speakers g h = absurd cc
orphaned_entry now ((j, refs) ∷ rest) id speakers g h = elim (Bool-cases (str_eq j id)) [
  | inl b ↦
      let scope = scope_of (silence now none refs) in
      let empty : is_empty (drop_lapsed now refs) ≡ true =
        is_empty-drop_lapsed now refs ∙ ground (arith, b, g, h) in
      (scope, rw empty (inl (ap (λ x. (x, scope)) ((str_eq_iff j id).0 b))))
  | inr b ↦
      let (scope, i) = orphaned_entry now rest id speakers (ground (arith, b, g)) h in
      (
        scope,
        elim (Bool-cases (is_empty (drop_lapsed now refs))) [
          | inl q ↦ rw q (inr i)
          | inr q ↦ rw q i
        ],
      )
]

-- The event is the expiry of that entity at that time.
pub record Expires (now : Time) (ent : Entity) (ev : Event) : Type 0 where
  pub event : EntityEvent
  pub about : ev.entity ≡ some event
  pub change_type : event.change_type ≡ entity_deleted
  pub entity : event.entity ≡ ent
  pub event_time : event.event_time ≡ now
  pub delete_source : event.delete_source ≡ source_liveness_expiry

stamp-Expires :
    (n : ℕ) (now : Time) (ent : Entity) (ev : Event)
    → Expires now ent ev
    → Expires now ent (stamp n ev)
stamp-Expires n now ent ev x = record {
  event = record (x.event) { commit_seq = n };
  about = stamp-entity n ev x.event x.about;
  change_type = x.change_type;
  entity = x.entity;
  event_time = x.event_time;
  delete_source = x.delete_source;
}

In-map : (n : ℕ) (ev : Event) (evs : List Event) → In ev evs → In (stamp n ev) (map (stamp n) evs)
In-map n ev [] i = absurd i
In-map n ev (x ∷ evs) (inl q) = inl (ap (stamp n) q)
In-map n ev (x ∷ evs) (inr i) = inr (In-map n ev evs i)

In-events_of :
    (log : List (ℕ × Event)) (seq : ℕ) (out : List Event) (ev : Event)
    → In ev out
    → In ev (events_of (log ++ numbered seq out))
In-events_of [] seq out ev i = subst (In ev) (sym (events_of-numbered seq out)) i
In-events_of (x ∷ log) seq out ev i = inr (In-events_of log seq out ev i)

module _ ⦃runtime : Runtime⦄ where
  -- An expiry of the entity is among the staged events.
  abbrev IsStaged : Time → Entity → Engine → Type 0
  IsStaged now ent e = (ev : Event) × In ev (staged_events e) × Expires now ent ev

  expire_known-IsStaged :
      (now : Time) (id scope : Str) (e : Engine) (ent : Entity)
      → InBatch e
      → IsStaged now ent (expire_known now id scope e (some ent, false)).0
  unfolding expire_known expiry_event
  expire_known-IsStaged now id scope e ent h =
      let ev = expiry_event now ent scope e in
      let s : Engine = record e { minted = e.minted + 1 } in
      let added : In ev (staged_events (commit now ev false s).0) =
        subst (In ev) (sym (commit-adds now ev false s h))
          (In-right ev (staged_events e) (ev ∷ []) (inl refl)) in
      (
        ev,
        rw ((commit-done now ev false s h).0) (
            remove_incident_relations-IsIn ev now now id _
              (still e (commit now ev false s).0 (commit-outside now ev false s h) h) added),
        record {
          event = _;
          about = refl;
          change_type = refl;
          entity = refl;
          event_time = refl;
          delete_source = refl;
        },
      )

  expire_entities-IsStaged :
      (now : Time) (ids : Dict Str Str) (e : Engine) (id scope : Str) (ent : Entity)
      → InBatch e
      → In (id, scope) ids
      → get_entity e.graph id ≡ (some ent, false)
      → IsStaged now ent (expire_entities now ids e).0
  unfolding expire_entities
  expire_entities-IsStaged now [] e id scope ent h i g = absurd i
  expire_entities-IsStaged now ((j, s) ∷ ids) e id scope ent h (inl q) g =
      let found = get_entity e.graph j in
      let r = expire_known now j s e found in
      let live : found ≡ (some ent, false) = ap (λ x. get_entity e.graph x.0) q ∙ g in
      let (ev, i, x) =
        subst (λ f. IsStaged now ent (expire_known now j s e f).0) (sym live)
          (expire_known-IsStaged now j s e ent h) in
      (
        ev,
        expire_entities-IsIn ev now ids r.0 (still e r.0 (expire_known-outside now j s e found h) h)
            i,
        x,
      )
  expire_entities-IsStaged now ((j, s) ∷ ids) e id scope ent h (inr i) g =
      let found = get_entity e.graph j in
      let r = expire_known now j s e found in
      let same = expire_known-outside now j s e found h in
      expire_entities-IsStaged now ids r.0 id scope ent (still e r.0 same h) i
        (ap (λ x. get_entity x.0 id) same ∙ g)

  sweep_staged-IsStaged :
      (now : Time) (e : Engine) (id scope : Str) (ent : Entity)
      → In (id, scope) (orphaned now e.refs)
      → get_entity e.graph id ≡ (some ent, false)
      → IsStaged now ent (sweep_staged now e).0
  unfolding sweep_staged
  sweep_staged-IsStaged now e id scope ent i g =
      let e0 : Engine = record e { staged = some new_staged; refs = drop_refs now e.refs } in
      let e1 = (expire_entities now (orphaned now e.refs) e0).0 in
      let (ev, j, x) =
        expire_entities-IsStaged now (orphaned now e.refs) e0 id scope ent refl i g in
      let e2 = expire_pending now e1 in
      let seen =
        expire_pending-outside now e1 ∙ expire_entities-outside now (orphaned now e.refs) e0 refl in
      let e3 : Engine = record e2 { rel_refs = drop_refs now e2.rel_refs } in
      (
        ev,
        expire_relations-IsIn ev now (orphaned now e2.rel_refs) e3 (still e0 e2 seen refl)
            (expire_pending-IsIn ev now e1 j),
        x,
      )

  -- A sweep that reports no error leaves in the log the expiry, at the sweep's time, of every live
  -- entity that has references and none that has not lapsed. The sequence numbers of the log rise.
  pub sweep-Expires :
      (now : Time) (e : Engine) (id : Str) (ent : Entity) (speakers : Speakers)
      → IsSequential e.store
      → get e.refs id ≡ some speakers
      → all (λ entry. is_lapsed now entry.1) speakers ≡ true
      → get_entity e.graph id ≡ (some ent, false)
      → (sweep now e).2 ≡ true
      → (ev : Event) × In ev (events_of (sweep now e).0.store.log) × Expires now ent ev
  unfolding tidy
  sweep-Expires now e id ent speakers q g lapsed live done =
      let (scope, i) = orphaned_entry now e.refs id speakers g lapsed in
      let (ev, j, x) = sweep_staged-IsStaged now e id scope ent i live in
      elim (sweep-atomic now e q) [
        | inl (flushed, out, followed, after, counts, error) ↦
            let n = suc e.store.seq in
            let sent : In (stamp n ev) out =
              subst (In (stamp n ev)) (sym followed.grown.stamped) (In-map n ev _ j) in
            let logged : In (stamp n ev) (events_of flushed.store.log) =
              subst (λ log. In (stamp n ev) (events_of log)) (sym followed.grown.log)
                (In-events_of e.store.log e.store.seq out (stamp n ev) sent) in
            (
              stamp n ev,
              subst (λ r. In (stamp n ev) (events_of r.store.log)) (sym after) logged,
              stamp-Expires n now ent ev x,
            )
        | inr (flushed, same, after, none_expired, failed) ↦ absurd (cc (sym done ∙ failed))
      ]
