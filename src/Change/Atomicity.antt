-- ===== src/Change/Atomicity.antt =====
-- The batches and sweeps of internal/change/engine.go as wholes: all or nothing.
use toise.Common.{
  ◌⊎◌, inl, inr, Bool-cases, Bool, ◌++◌, [], sym, subst, ◌∷◌, List, Str, str_Eq, ◌≡◌, refl, ap, ◌∙◌,
  some, true, false,
}
use toise.Store.{Store}
use toise.Projection.Graph.{Graph, replay}
use toise.Change.Engine.{staged_of, events_in, set_current_scope, Engine, run_batch, flush_staged}
use toise.Change.Reconcile.{remove_relation_locked, observe_relation_buffered}
use toise.Change.Staging.Edges.{remove_relation_locked-outside, observe_relation_buffered-outside}
use toise.Store.Laws.{Grown, IsSequential}
use toise.Change.Deletion.{delete_entity_locked}
use toise.Change.Staging.Nodes.{delete_entity_locked-outside, observe_entity_locked-outside}
use toise.Change.Flush.{flush_staged-Followed, Followed, flush_staged-refused}
use toise.Change.Staged.{new_staged}
use toise.Change.Entities.{observe_entity_locked}
use toise.Change.State.{Staged, EntityObservation, RelationObservation}
use toise.Change.Staging.{set_current_scope-outside, outside, InBatch, still}
use toise.Model.Value.{Runtime}
use toise.Model.Event.{Event, Time}

-- The calls of a Batch.
pub data BatchCall : Type 0 where
  set_scope : Str → BatchCall
  observe_entity delete_entity : EntityObservation → BatchCall
  observe_relation remove_relation : RelationObservation → BatchCall

-- The events that the open batch has staged.
abbrev pub staged_events : Engine → List Event
staged_events e = events_in (staged_of e.staged).events

abbrev pub seen : Engine → Graph × Store × List (Event × Bool)
seen e = (e.graph, e.store, e.notified)

pub shown : (e e' : Engine) → outside e' ≡ outside e → seen e' ≡ seen e
shown e e' p = ap (λ x. (x.0, x.1, x.3)) p

module _ ⦃runtime : Runtime⦄ where
  unfoldable pub run_call : Time → BatchCall → Engine → Engine
  unfolding set_current_scope observe_entity_locked delete_entity_locked observe_relation_buffered
      remove_relation_locked
  run_call now (set_scope scope) e = set_current_scope e scope
  run_call now (observe_entity obs) e = (observe_entity_locked now obs e).0
  run_call now (delete_entity obs) e = (delete_entity_locked now obs e).0
  run_call now (observe_relation obs) e = (observe_relation_buffered now obs e).0
  run_call now (remove_relation obs) e = (remove_relation_locked now obs e).0

  unfoldable pub run_calls : Time → List BatchCall → Engine → Engine
  unfolding run_call
  run_calls now [] e = e
  run_calls now (c ∷ cs) e = run_calls now cs (run_call now c e)

  run_call-outside :
      (now : Time) (c : BatchCall) (e : Engine) → InBatch e → outside (run_call now c e) ≡ outside e
  unfolding run_call
  run_call-outside now (set_scope scope) e h = set_current_scope-outside e scope
  run_call-outside now (observe_entity obs) e h = observe_entity_locked-outside now obs e h
  run_call-outside now (delete_entity obs) e h = delete_entity_locked-outside now obs e h
  run_call-outside now (observe_relation obs) e h = observe_relation_buffered-outside now obs e h
  run_call-outside now (remove_relation obs) e h = remove_relation_locked-outside now obs e h

  run_calls-outside :
      (now : Time) (cs : List BatchCall) (e : Engine)
      → InBatch e
      → outside (run_calls now cs e) ≡ outside e
  unfolding run_calls
  run_calls-outside now [] e h = refl
  run_calls-outside now (c ∷ cs) e h =
      let one = run_call-outside now c e h in
      run_calls-outside now cs (run_call now c e) (still e (run_call now c e) one h) ∙ one

  carry :
      (now : Time) (e e' r : Engine) (evs out : List Event)
      → seen e' ≡ seen e
      → Followed now e' r evs out
      → Followed now e r evs out
  carry now e e' r evs out p f = record {
    grown = subst (λ s. Grown s r.store evs out) (ap (λ x. x.1) p) f.grown;
    graph = f.graph ∙ ap (λ x. replay now x.0 out) p;
    notified = f.notified ∙ ap (λ x. events_in x.2 ++ out) p;
  }

  -- The engine behind the calls of a batch, before its flush.
  abbrev pub called : Time → List BatchCall → Engine → Engine
  called now calls e = run_calls now calls (record e { staged = some new_staged })

  -- What a reader outside sees of a failed flush: nothing at all.
  pub record Untouched (e r : Engine) : Type 0 where
    pub graph : r.graph ≡ e.graph
    pub store : r.store ≡ e.store
    pub notified : r.notified ≡ e.notified

  pub flush-Untouched :
      (now : Time) (st : Staged) (e e' : Engine)
      → seen e' ≡ seen e
      → (flush_staged now st e').1 ≡ false
      → Untouched e (flush_staged now st e').0
  flush-Untouched now st e e' p h =
      let q = flush_staged-refused now st e' h in
      record {
        graph = ap (λ r. r.graph) q ∙ ap (λ x. x.0) p;
        store = ap (λ r. r.store) q ∙ ap (λ x. x.1) p;
        notified = ap (λ r. r.notified) q ∙ ap (λ x. x.2) p;
      }

  pub flush-carried :
      (now : Time) (st : Staged) (e e' : Engine)
      → seen e' ≡ seen e
      → IsSequential e.store
      → (flush_staged now st e').1 ≡ true
      → (out : List Event) × Followed now e (flush_staged now st e').0 (events_in st.events) out
  flush-carried now st e e' p q h =
      let (out, f) =
        flush_staged-Followed now st e' (subst IsSequential (ap (λ x. x.1) (sym p)) q) h in
      (out, carry now e e' (flush_staged now st e').0 (events_in st.events) out p f)

  -- On a log whose sequence numbers rise a batch is atomic, whatever its calls: when its flush
  -- fails the projection, the log and what the subscribers were sent are what they were before the
  -- batch, and when it succeeds the events that the calls staged, stamped with the number of the
  -- first of them, stand at the end of the log, the projection is the old one with exactly them
  -- replayed, and the subscribers were sent exactly them, in that order.
  pub run_batch-atomic :
      (now : Time) (calls : List BatchCall) (e : Engine)
      → IsSequential e.store
      → let r = run_batch now (run_calls now calls) e in
        ((r.1 ≡ true)
          × ((out : List Event) × Followed now e r.0 (staged_events (called now calls e)) out))
        ⊎ ((r.1 ≡ false) × Untouched e r.0)
  unfolding run_batch
  run_batch-atomic now calls e q =
      let opened : Engine = record e { staged = some new_staged } in
      let after = called now calls e in
      let p = shown opened after (run_calls-outside now calls opened refl) in
      elim (Bool-cases (flush_staged now (staged_of after.staged) after).1) [
        | inl h ↦ inl (h, flush-carried now (staged_of after.staged) e after p q h)
        | inr h ↦ inr (h, flush-Untouched now (staged_of after.staged) e after p h)
      ]
