-- ===== src/Projection/History.antt =====
-- The identity indexes of internal/projection/graph.go over a whole log.
use toise.Projection.Index.{
  hash_at, IsIndexed, Free, Releasable, put_entity-IsIndexed, drop_tombstone-IsIndexed,
  delete_entity-IsIndexed,
}
use toise.Common.{
  ◌*◌, nat_eq, length, ℕ, ◌+◌, ◌≡◌, refl, ◌⊎◌, inl, inr, Option, none, some, List, [], ◌∷◌, ltb,
  Str, str_Eq, Bool-cases,
}
use toise.Projection.Graph.{
  new_with_tombstone_cap, apply, apply_parts, apply_relation, put_relation, drop_relation, replay,
  compact_if_long, compact_tombstones, Graph, drop_tombstone, ensure_entity, apply_entity,
  prune_each, prune_tombstones,
}
use toise.Model.Entity.{
  Relation, relation_added, relation_removed, relation_attribute_changed, Entity, ChangeType,
  entity_created, entity_deleted, entity_identity_changed, entity_attribute_updated,
  entity_state_changed, entity_unchanged, hash_of,
}
use toise.Model.Event.{Event, RelationEvent, EntityEvent, Time}
use toise.Common.Dict.{Dict, get, remove, has}
use toise.Model.Value.{Runtime}

module _ ⦃runtime : Runtime⦄ where
  -- What an event that stores an entity needs: its id has no other identity, its identity no
  -- other id.
  abbrev pub Storable : Graph → Entity → Type 0
  Storable g e =
      ((hash_at g.entities e.id ≡ none) ⊎ (hash_at g.entities e.id ≡ some (hash_of e)))
      × Free g.by_hash (hash_of e) e.id

  -- Identities are immutable: no id changes its identity, and no live identity has two ids.
  abbrev pub Fits : Graph → ChangeType → EntityEvent → Type 0
  Fits g entity_deleted ee = Releasable g ee.entity.id
  Fits g entity_identity_changed ee = ⊥
  Fits g entity_created ee = Storable g ee.entity
  Fits g entity_attribute_updated ee = Storable g ee.entity
  Fits g entity_state_changed ee = Storable g ee.entity
  Fits g entity_unchanged ee = Storable g ee.entity
  Fits g _ ee = Unit

  ensure_entity-IsIndexed :
      (g : Graph) (e : Entity) → IsIndexed g → Storable g e → IsIndexed (ensure_entity g e)
  unfolding ensure_entity
  ensure_entity-IsIndexed g e x f = elim (Bool-cases (has g.entities e.id)) [
    | inl p ↦ rw p x
    | inr p ↦ rw p (put_entity-IsIndexed g e x f.0 f.1)
  ]

  apply_entity-IsIndexed :
      (now : Time) (g : Graph) (ct : ChangeType) (ee : EntityEvent)
      → IsIndexed g
      → Fits g ct ee
      → IsIndexed (apply_entity now g ct ee)
  unfolding apply_entity
  apply_entity-IsIndexed now g entity_created ee x f = put_entity-IsIndexed g ee.entity x f.0 f.1
  apply_entity-IsIndexed now g entity_identity_changed ee x f = absurd f
  apply_entity-IsIndexed now g entity_attribute_updated ee x f =
      put_entity-IsIndexed g ee.entity x f.0 f.1
  apply_entity-IsIndexed now g entity_state_changed ee x f =
      put_entity-IsIndexed g ee.entity x f.0 f.1
  apply_entity-IsIndexed now g entity_deleted ee x f = delete_entity-IsIndexed now g ee x f
  apply_entity-IsIndexed now g entity_unchanged ee x f = ensure_entity-IsIndexed g ee.entity x f
  apply_entity-IsIndexed now g _ ee x f = x

  apply_relation-IsIndexed :
      (g : Graph) (ct : ChangeType) (r : Relation) → IsIndexed g → IsIndexed (apply_relation g ct r)
  unfolding apply_relation put_relation drop_relation
  apply_relation-IsIndexed g relation_added r x = x
  apply_relation-IsIndexed g relation_attribute_changed r x = x
  apply_relation-IsIndexed g relation_removed r x = x
  apply_relation-IsIndexed g _ r x = x

  abbrev pub FitsParts : Graph → Option EntityEvent → Option RelationEvent → Type 0
  FitsParts g (some ee) re = Fits g ee.change_type ee
  FitsParts g none re = Unit

  apply_parts-IsIndexed :
      (now : Time) (g : Graph) (oe : Option EntityEvent) (or : Option RelationEvent)
      → IsIndexed g
      → FitsParts g oe or
      → IsIndexed (apply_parts now g oe or)
  unfolding apply_parts
  apply_parts-IsIndexed now g (some ee) or x f = apply_entity-IsIndexed now g ee.change_type ee x f
  apply_parts-IsIndexed now g none (some re) x f =
      apply_relation-IsIndexed g re.change_type re.relation x
  apply_parts-IsIndexed now g none none x f = x

  -- Each event of a log fits the graph that it meets.
  abbrev pub AllFit : Time → Graph → List Event → Type 0
  AllFit now g [] = Unit
  AllFit now g (ev ∷ evs) = FitsParts g ev.entity ev.relation × AllFit now (apply now g ev) evs

  -- Exact identity indexes stay exact when events are replayed under which no id changes its
  -- identity and no live identity has two ids.
  pub replay-IsIndexed :
      (now : Time) (evs : List Event) (g : Graph)
      → IsIndexed g
      → AllFit now g evs
      → IsIndexed (replay now g evs)
  unfolding replay apply
  replay-IsIndexed now [] g x f = x
  replay-IsIndexed now (ev ∷ evs) g x f =
      replay-IsIndexed now evs (apply now g ev)
        (apply_parts-IsIndexed now g ev.entity ev.relation x f.0) f.1

  pub new-IsIndexed : (limit : ℕ) → IsIndexed (new_with_tombstone_cap limit)
  unfolding new_with_tombstone_cap get
  new-IsIndexed limit = record {
    live_sound = λ h id p. cc;
    live_complete = λ h id p q. cc;
    tomb_sound = λ h id p. cc;
  }

  prune_each-IsIndexed :
      (now : Time) (deadlines : Dict Str Time) (g : Graph) (n : ℕ)
      → IsIndexed g
      → IsIndexed (prune_each now deadlines g n).0
  unfolding prune_each
  prune_each-IsIndexed now [] g n x = x
  prune_each-IsIndexed now ((id, deadline) ∷ rest) g n x = elim (Bool-cases (ltb deadline now)) [
    | inr e ↦ rw e (prune_each-IsIndexed now rest g n x)
    | inl e ↦ elim (Bool-cases (has g.deleted id)) [
      | inl d ↦
          rw (e, d)
            (prune_each-IsIndexed now rest (drop_tombstone g id) (n + 1)
              (drop_tombstone-IsIndexed g id (get g.entities id) refl d x))
      | inr d ↦
          rw (e, d)
            (prune_each-IsIndexed now rest (record g { tomb_deadline = remove g.tomb_deadline id })
              n x)
    ]
  ]

  -- Pruning the tombstones keeps exact identity indexes exact.
  pub prune_tombstones-IsIndexed :
      (now : Time) (g : Graph) → IsIndexed g → IsIndexed (prune_tombstones now g).0
  unfolding prune_tombstones compact_if_long compact_tombstones
  prune_tombstones-IsIndexed now g x = elim (Bool-cases (nat_eq g.tombstone_ttl 0)) [
    | inl e ↦ rw e x
    | inr e ↦ rw e (
        compacted (prune_each now g.tomb_deadline g 0).0
          (prune_each-IsIndexed now g.tomb_deadline g 0 x))
  ]
    where
      compacted : (g' : Graph) → IsIndexed g' → IsIndexed (compact_if_long g')
      compacted g' x' = elim (Bool-cases (ltb (2 * g'.live_tombstones) (length g'.tombstones))) [
        | inl e ↦ rw e x'
        | inr e ↦ rw e x'
      ]
