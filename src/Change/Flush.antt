-- ===== src/Change/Flush.antt =====
-- The durable append of a batch in internal/change/engine.go: all or nothing, and the projection
-- and the subscribers follow the log.
use toise.Common.{
  ◌≡◌, refl, Bool, true, false, none, List, [], ◌∷◌, ◌++◌, str_Eq, inl, inr, length, List-cases, ap,
  append-nil, arith, suc, ◌∙◌, subst, sym, append_assoc,
}
use toise.Model.Value.{Runtime}
use toise.Model.Event.{Event, Time}
use toise.Projection.Graph.{replay}
use toise.Store.{append, Appended, appended, refused}
use toise.Store.Laws.{IsSequential, Grown, append-Grown, append-length, nothing-Grown}
use toise.Change.State.{Staged}
use toise.Change.Engine.{
  Engine, flush_staged, append_events, settle, publish, priorities, events_in, disk_now, disk_later,
}

pub events_in-append :
    (xs ys : List (Event × Bool)) → events_in (xs ++ ys) ≡ events_in xs ++ events_in ys
events_in-append [] ys = refl
events_in-append (x ∷ xs) ys = ap (◌∷◌ x.0) (events_in-append xs ys)

same_length : (evs : List (Event × Bool)) → length (events_in evs) ≡ length (priorities evs)
same_length [] = refl
same_length (ev ∷ evs) = ap suc (same_length evs)

module _ ⦃runtime : Runtime⦄ where
  settle-refused :
      (now : Time) (hps : List Bool) (e : Engine) (a : Appended)
      → (settle now hps e a).1 ≡ false
      → settle now hps e a ≡ (e, false)
  unfolding settle
  settle-refused now hps e (appended s evs) h = cc
  settle-refused now hps e (refused err) h = refl

  publish-replay :
      (now : Time) (evs : List Event) (hps : List Bool) (e : Engine)
      → length evs ≡ length hps
      → (publish now evs hps e).graph ≡ replay now e.graph evs
  unfolding publish replay
  publish-replay now [] hps e h = refl
  publish-replay now (ev ∷ evs) [] e h = ground (arith, h)
  publish-replay now (ev ∷ evs) (hp ∷ hps) e h = publish-replay now evs hps _ (omega (arith, h))

  publish-store :
      (now : Time) (evs : List Event) (hps : List Bool) (e : Engine)
      → (publish now evs hps e).store ≡ e.store
  unfolding publish
  publish-store now [] hps e = refl
  publish-store now (ev ∷ evs) [] e = refl
  publish-store now (ev ∷ evs) (hp ∷ hps) e = publish-store now evs hps _

  publish-notified :
      (now : Time) (evs : List Event) (hps : List Bool) (e : Engine)
      → length evs ≡ length hps
      → events_in (publish now evs hps e).notified ≡ events_in e.notified ++ evs
  unfolding publish
  publish-notified now [] hps e h = rw append-nil
  publish-notified now (ev ∷ evs) [] e h = ground (arith, h)
  publish-notified now (ev ∷ evs) (hp ∷ hps) e h =
      publish-notified now evs hps _ (omega (arith, h))
      ∙ rw (events_in-append e.notified ((ev, hp) ∷ []), append_assoc)

  append_events-refused :
      (now : Time) (evs : List (Event × Bool)) (e : Engine)
      → (append_events now evs e).1 ≡ false
      → append_events now evs e ≡ (record e { disk = disk_later e.disk }, false)
  unfolding append_events
  append_events-refused now evs e h = settle-refused now (priorities evs) _ _ h

  -- What a successful append of `evs` leaves, with `out` their stamped forms: the log grew by them,
  -- the projection replayed them and the subscribers were sent them, in that order.
  pub record Followed (now : Time) (e e' : Engine) (evs out : List Event) : Type 0 where
    pub grown : Grown e.store e'.store evs out
    pub graph : e'.graph ≡ replay now e.graph out
    pub notified : events_in e'.notified ≡ events_in e.notified ++ out

  settle-Followed :
      (now : Time) (evs : List (Event × Bool)) (e : Engine) (disk : Bool)
      → IsSequential e.store
      → (a : Appended) → append disk e.store (events_in evs) ≡ a
      → (settle now (priorities evs) e a).1 ≡ true
      → (out : List Event) × Followed now e (settle now (priorities evs) e a).0 (events_in evs) out
  unfolding settle
  settle-Followed now evs e disk q (appended s out) h ok =
      let same = append-length disk e.store s (events_in evs) out q h ∙ same_length evs in
      (
        out,
        record {
          grown =
              subst (λ t. Grown e.store t (events_in evs) out)
                (sym (publish-store now out (priorities evs) _))
                (append-Grown disk e.store s (events_in evs) out q h);
          graph = publish-replay now out (priorities evs) _ same;
          notified = publish-notified now out (priorities evs) _ same;
        },
      )
  settle-Followed now evs e disk q (refused err) h ok = cc

  pub flush_nothing :
      (now : Time) (st : Staged) (e : Engine)
      → st.events ≡ []
      → flush_staged now st e ≡ (record e { staged = none }, true)
  unfolding flush_staged
  flush_nothing now st e p = rw p refl

  pub flush_something :
      (now : Time) (st : Staged) (e : Engine) (x : Event × Bool) (xs : List (Event × Bool))
      → st.events ≡ x ∷ xs
      → flush_staged now st e ≡ append_events now (x ∷ xs) (record e { staged = none })
  unfolding flush_staged
  flush_something now st e x xs p = rw p refl

  -- A flush that reports an error leaves the engine as it was before the batch staged anything:
  -- only the batch is gone, and the failed append is behind it.
  pub flush_staged-refused :
      (now : Time) (st : Staged) (e : Engine)
      → (flush_staged now st e).1 ≡ false
      → (flush_staged now st e).0 ≡ record e { disk = disk_later e.disk; staged = none }
  flush_staged-refused now st e h = elim (List-cases st.events) [
    | inl p ↦ let q = flush_nothing now st e p in cc (sym (ap (λ r. r.1) q) ∙ h)
    | inr (x, xs, p) ↦
        let q = flush_something now st e x xs p in
        let s = record e { staged = none } in
        ap (λ r. r.0) (q ∙ append_events-refused now (x ∷ xs) s (ap (λ r. r.1) (sym q) ∙ h))
  ]

  nothing-Followed :
      (now : Time) (e : Engine)
      → IsSequential e.store
      → Followed now e (record e { staged = none }) [] []
  unfolding replay
  nothing-Followed now e q = record {
    grown = nothing-Grown e.store q;
    graph = refl;
    notified = rw append-nil;
  }

  append_events-Followed :
      (now : Time) (evs : List (Event × Bool)) (e : Engine)
      → IsSequential e.store
      → (append_events now evs (record e { staged = none })).1 ≡ true
      → (out : List Event) × Followed now e
          (append_events now evs (record e { staged = none })).0
          (events_in evs)
          out
  unfolding append_events
  append_events-Followed now evs e q h =
      let after : Engine = record e { disk = disk_later e.disk; staged = none } in
      let (out, f) = settle-Followed now evs after (disk_now e.disk) q _ refl h in
      (out, record { grown = f.grown; graph = f.graph; notified = f.notified })

  abbrev Leaves : Time → Engine → (Engine × Bool) × List (Event × Bool) → Type 0
  Leaves now e (r, evs) = (out : List Event) × Followed now e r.0 (events_in evs) out

  -- A flush that reports success has put its events, and nothing else, at the end of the log with
  -- rising sequence numbers, has folded exactly them into the projection, and has sent exactly
  -- them to the subscribers, all in the same order.
  pub flush_staged-Followed :
      (now : Time) (st : Staged) (e : Engine)
      → IsSequential e.store
      → (flush_staged now st e).1 ≡ true
      → (out : List Event) × Followed now e (flush_staged now st e).0 (events_in st.events) out
  flush_staged-Followed now st e q h = elim (List-cases st.events) [
    | inl p ↦
        subst (Leaves now e) (λ i. (sym (flush_nothing now st e p) i, sym p i))
          ([], nothing-Followed now e q)
    | inr (x, xs, p) ↦
        let r = flush_something now st e x xs p in
        subst (Leaves now e) (λ i. (sym r i, sym p i))
          (append_events-Followed now (x ∷ xs) e q (ap (λ r. r.1) (sym r) ∙ h))
  ]
