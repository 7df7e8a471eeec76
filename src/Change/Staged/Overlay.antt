-- ===== src/Change/Staged/Overlay.antt =====
-- The overlay of internal/change/engine.go answers for the projection as the flush will leave it.
use toise.Common.{
  ◌≡◌, refl, inl, inr, Option, none, some, List, [], ◌∷◌, arith, Str, str_Eq, Bool-cases,
}
use toise.Common.Dict.{get, has, get-put, get-remove, get-empty}
use toise.Model.Value.{Runtime}
use toise.Model.Entity.{
  Entity, Relation, ChangeType, entity_created, entity_deleted, entity_identity_changed,
  entity_attribute_updated, entity_state_changed, entity_unchanged, relation_added,
  relation_removed, relation_attribute_changed,
}
use toise.Model.Event.{Event, EntityEvent, RelationEvent, Time}
use toise.Projection.Graph.{
  Graph, apply, apply_parts, apply_entity, apply_relation, put_entity, put_relation, drop_relation,
  delete_entity, retire, bury, evict_queue, evict_tombstones, drop_tombstone, change_identity,
  ensure_entity, replay,
}
use toise.Projection.Reads.{get_relation}
use toise.Change.State.{Staged}
use toise.Change.Staged.{
  new_staged, stage_relation, stage_entity, stage_parts, stage, overlay_get_relation,
}

module _ ⦃runtime : Runtime⦄ where
  relations-evict_queue :
      (queue : List Str) (g : Graph) → (evict_queue queue g).relations ≡ g.relations
  unfolding evict_queue drop_tombstone
  relations-evict_queue [] g = refl
  relations-evict_queue (id ∷ queue) g =
      ground
        (arith, relations-evict_queue queue g, relations-evict_queue queue (drop_tombstone g id))

  relations-retire :
      (g : Graph) (id : Str) (o : Option Entity) → (retire g id o).relations ≡ g.relations
  unfolding retire
  relations-retire g id none = refl
  relations-retire g id (some e) = refl

  relations-delete_entity :
      (now : Time) (g : Graph) (ee : EntityEvent) → (delete_entity now g ee).relations ≡ g.relations
  unfolding delete_entity evict_tombstones bury
  relations-delete_entity now g ee =
      let retired = retire g ee.entity.id (get g.entities ee.entity.id) in
      let same = relations-retire g ee.entity.id (get g.entities ee.entity.id) in
      elim (Bool-cases (has g.deleted ee.entity.id)) [
        | inl d ↦ rw d same
        | inr d ↦
            rw
              (
                d,
                relations-evict_queue (bury now retired ee.entity.id ee.recorded_at).tombstones
                    (bury now retired ee.entity.id ee.recorded_at),
              )
              same
      ]

  relations-apply_entity :
      (now : Time) (g : Graph) (ct : ChangeType) (ee : EntityEvent)
      → (apply_entity now g ct ee).relations ≡ g.relations
  unfolding apply_entity put_entity change_identity ensure_entity
  relations-apply_entity now g entity_created ee = refl
  relations-apply_entity now g entity_identity_changed ee = ground arith
  relations-apply_entity now g entity_attribute_updated ee = refl
  relations-apply_entity now g entity_state_changed ee = refl
  relations-apply_entity now g entity_deleted ee = relations-delete_entity now g ee
  relations-apply_entity now g entity_unchanged ee = ground arith
  relations-apply_entity now g _ ee = refl

  stage_entity-relation :
      (st : Staged) (base : Graph) (ct : ChangeType) (e : Entity) (id : Str)
      → overlay_get_relation (some (stage_entity st ct e)) base id
        ≡ overlay_get_relation (some st) base id
  unfolding stage_entity overlay_get_relation
  stage_entity-relation st base entity_created e id = refl
  stage_entity-relation st base entity_attribute_updated e id = refl
  stage_entity-relation st base entity_state_changed e id = refl
  stage_entity-relation st base entity_deleted e id = refl
  stage_entity-relation st base _ e id = refl

-- One relation event, staged and applied.
stage_relation_lem :
    (st : Staged) (base g : Graph) (ct : ChangeType) (r : Relation) (id : Str)
    → overlay_get_relation (some st) base id ≡ get_relation g id
    → overlay_get_relation (some (stage_relation st ct r)) base id
      ≡ get_relation (apply_relation g ct r) id
unfolding stage_relation overlay_get_relation get_relation apply_relation put_relation drop_relation
stage_relation_lem st base g relation_added r id h = ground (
  arith,
  get-put st.relations r.id id r,
  get-remove st.rel_removed r.id id,
  get-put g.relations r.id id r,
)
stage_relation_lem st base g relation_attribute_changed r id h = ground (
  arith,
  get-put st.relations r.id id r,
  get-remove st.rel_removed r.id id,
  get-put g.relations r.id id r,
)
stage_relation_lem st base g relation_removed r id h = ground (
  arith,
  get-remove st.relations r.id id,
  get-put st.rel_removed r.id id tt,
  get-remove g.relations r.id id,
)
stage_relation_lem st base g _ r id h = h

module _ ⦃runtime : Runtime⦄ where
  stage_parts_lem :
      (now : Time) (st : Staged) (base g : Graph) (oe : Option EntityEvent)
      (or : Option RelationEvent) (id : Str)
      → overlay_get_relation (some st) base id ≡ get_relation g id
      → overlay_get_relation (some (stage_parts st oe or)) base id
        ≡ get_relation (apply_parts now g oe or) id
  unfolding stage_parts apply_parts get_relation
  stage_parts_lem now st base g (some ee) or id h =
      rw
        (
          stage_entity-relation st base ee.change_type ee.entity id,
          relations-apply_entity now g ee.change_type ee,
        )
        h
  stage_parts_lem now st base g none (some re) id h =
      stage_relation_lem st base g re.change_type re.relation id h
  stage_parts_lem now st base g none none id h = h

  -- The staged state after the events of a batch.
  abbrev pub stage_all : Staged → List Event → Staged
  stage_all st [] = st
  stage_all st (ev ∷ evs) = stage_all (stage st ev) evs

  stage_all_lem :
      (now : Time) (evs : List Event) (st : Staged) (base g : Graph) (id : Str)
      → overlay_get_relation (some st) base id ≡ get_relation g id
      → overlay_get_relation (some (stage_all st evs)) base id ≡ get_relation (replay now g evs) id
  unfolding stage apply replay
  stage_all_lem now [] st base g id h = h
  stage_all_lem now (ev ∷ evs) st base g id h =
      stage_all_lem now evs (stage st ev) base (apply now g ev) id
        (stage_parts_lem now st base g ev.entity ev.relation id h)

  -- With any events staged in a fresh batch, the overlay shows under every id the relation that the
  -- projection holds once these events are replayed.
  pub overlay_get_relation-stage_all :
      (now : Time) (g : Graph) (evs : List Event) (id : Str)
      → overlay_get_relation (some (stage_all new_staged evs)) g id
        ≡ get_relation (replay now g evs) id
  unfolding overlay_get_relation new_staged get_relation
  overlay_get_relation-stage_all now g evs id = stage_all_lem now evs new_staged g g id (
      unfold overlay_get_relation new_staged get_relation in
      ground (arith, get-empty {V = Unit {0}} id, get-empty {V = Relation} id))
