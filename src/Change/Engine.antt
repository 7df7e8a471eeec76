-- ===== src/Change/Engine.antt =====
-- The state of the engine of internal/change/engine.go, and its commit path. The clock is one
-- reading for each operation. `disk` is the outcome of the coming durable appends, success where it
-- is empty; `notified` is what the subscribers were sent, `discards` and `conflicts` are the calls
-- of the two reporters, and `minted` counts the identifiers that were generated.
use toise.Common.{ℕ, Bool, true, false, Option, none, some, List, [], ◌∷◌, ◌++◌, map, Str}
use toise.Common.Dict.{Dict}
use toise.Model.Value.{Runtime}
use toise.Model.Event.{Event, Time, Duration}
use toise.Projection.Graph.{Graph, Set, apply}
use toise.Store.{Store, Appended, appended, refused, append}
use toise.Change.State.{Refs, BadPromise, PendingRelation, Staged}
use toise.Change.Staged.{new_staged, stage}
use toise.Change.Alias.{IdentityAliasIndex, AliasKey}

pub record Engine : Type 0 where
  pub graph : Graph
  pub store : Store
  pub disk : List Bool
  pub bad_promises : Dict Str BadPromise
  pub buffer_ttl : Duration
  pub pending : List PendingRelation
  pub pending_hashes : Set
  pub refs : Refs
  pub rel_refs : Refs
  pub aliases : IdentityAliasIndex
  pub staged : Option Staged
  pub minted : ℕ
  pub notified : List (Event × Bool)
  pub discards : List (Str × Str × Str)
  pub conflicts : List AliasKey

unfoldable pub current_scope : Engine → Str
current_scope e = elim e.staged [ none ↦ [] | some st ↦ st.scope ]

unfoldable pub set_current_scope : Engine → Str → Engine
set_current_scope e scope = elim e.staged [
  | none ↦ e
  | some st ↦ record e { staged = some (record st { scope = scope }) }
]

abbrev pub staged_of : Option Staged → Staged
staged_of none = new_staged
staged_of (some st) = st

abbrev pub disk_now : List Bool → Bool
disk_now [] = true
disk_now (b ∷ disk) = b

abbrev pub disk_later : List Bool → List Bool
disk_later [] = []
disk_later (b ∷ disk) = disk

abbrev pub priorities : List (Event × Bool) → List Bool
priorities [] = []
priorities ((ev, hp) ∷ evs) = hp ∷ priorities evs

abbrev pub events_in : List (Event × Bool) → List Event
events_in evs = map (λ entry. entry.0) evs

module _ ⦃runtime : Runtime⦄ where
  -- Apply and notify, one event after the other, each with its priority.
  unfoldable pub publish : Time → List Event → List Bool → Engine → Engine
  publish now [] hps e = e
  publish now (ev ∷ evs) [] e = e
  publish now (ev ∷ evs) (hp ∷ hps) e =
      publish now evs hps
        (record e { graph = apply now e.graph ev; notified = e.notified ++ (ev, hp) ∷ [] })

  -- What follows a durable append: the events as the store stamped them, or an error.
  unfoldable pub settle : Time → List Bool → Engine → Appended → Engine × Bool
  unfolding publish
  settle now hps e (appended store evs) = (publish now evs hps (record e { store = store }), true)
  settle now hps e (refused error) = (e, false)

  -- The durable append of a batch or of one event; the result says whether it succeeded.
  unfoldable pub append_events : Time → List (Event × Bool) → Engine → Engine × Bool
  unfolding settle
  append_events now evs e =
      settle now (priorities evs) (record e { disk = disk_later e.disk })
        (append (disk_now e.disk) e.store (events_in evs))

  -- In a batch the event is staged, otherwise it is appended, applied and sent at once.
  unfoldable pub commit : Time → Event → Bool → Engine → Engine × Bool
  unfolding append_events
  commit now ev hp e = elim e.staged [
    | none ↦ append_events now ((ev, hp) ∷ []) e
    | some st ↦ (
      record e { staged = some (record (stage st ev) { events = st.events ++ (ev, hp) ∷ [] }) },
      true,
    )
  ]

  -- A batch without events appends nothing.
  unfoldable pub flush_staged : Time → Staged → Engine → Engine × Bool
  unfolding append_events
  flush_staged now st e = elim st.events [
    | [] ↦ (record e { staged = none }, true)
    | entry ∷ more ↦ append_events now (entry ∷ more) (record e { staged = none })
  ]

  -- Batch: the observations of `fn` on one staged unit of work, then the flush.
  unfoldable pub run_batch : Time → (Engine → Engine) → Engine → Engine × Bool
  unfolding flush_staged
  run_batch now fn e =
      let e' = fn (record e { staged = some new_staged }) in
      flush_staged now (staged_of e'.staged) e'
