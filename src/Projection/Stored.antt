-- ===== src/Projection/Stored.antt =====
-- Every graph of a log stores its entities and relations under their own ids.
use toise.Common.{
  ℕ, ◌≡◌, refl, inl, inr, false, Option, none, some, List, [], ◌∷◌, if◌then◌else◌, ltb, Str, str_Eq,
  Bool-cases, Option-cases,
}
use toise.Common.Dict.{get, has}
use toise.Model.Value.{Runtime}
use toise.Model.Entity.{
  Entity, Relation, ChangeType, entity_created, entity_deleted, entity_identity_changed,
  entity_attribute_updated, entity_state_changed, entity_unchanged, relation_added,
  relation_removed, relation_attribute_changed,
}
use toise.Model.Event.{Event, EntityEvent, RelationEvent, Time}
use toise.Projection.Graph.{
  Graph, new_with_tombstone_cap, put_entity, drop_tombstone, evict_queue, evict_tombstones, retire,
  bury, delete_entity, change_identity, ensure_entity, apply_entity, put_relation, drop_relation,
  apply_relation, apply_parts, apply, replay,
}
use toise.Projection.Restart.{
  put-Keyed, remove-Keyed, entity_id, relation_id, IsStored, replay-snapshot_events,
}
use toise.Projection.Reads.{get_entity, snapshot_events}

module _ ⦃runtime : Runtime⦄ where
  put_entity-IsStored : (g : Graph) (e : Entity) → IsStored g → IsStored (put_entity g e)
  unfolding put_entity
  put_entity-IsStored g e s = record {
    entities = put-Keyed entity_id g.entities e.id e refl s.entities;
    relations = s.relations;
  }

  drop_tombstone-IsStored : (g : Graph) (id : Str) → IsStored g → IsStored (drop_tombstone g id)
  unfolding drop_tombstone
  drop_tombstone-IsStored g id s = record {
    entities = remove-Keyed entity_id g.entities id s.entities;
    relations = s.relations;
  }

  evict_queue-IsStored :
      (queue : List Str) (g : Graph) → IsStored g → IsStored (evict_queue queue g)
  unfolding evict_queue
  evict_queue-IsStored [] g s = record { entities = s.entities; relations = s.relations }
  evict_queue-IsStored (id ∷ queue) g s =
      elim (Bool-cases (ltb g.tombstone_cap g.live_tombstones)) [
        | inr e ↦ rw e (record { entities = s.entities; relations = s.relations })
        | inl e ↦ elim (Bool-cases (has g.deleted id)) [
          | inl d ↦
              rw (e, d)
                (evict_queue-IsStored queue (drop_tombstone g id) (drop_tombstone-IsStored g id s))
          | inr d ↦ rw (e, d) (evict_queue-IsStored queue g s)
        ]
      ]

  retire-IsStored :
      (g : Graph) (id : Str) (o : Option Entity) → IsStored g → IsStored (retire g id o)
  unfolding retire
  retire-IsStored g id none s = s
  retire-IsStored g id (some e) s = record { entities = s.entities; relations = s.relations }

  bury-IsStored :
      (now : Time) (g : Graph) (id : Str) (t : Time) → IsStored g → IsStored (bury now g id t)
  unfolding bury
  bury-IsStored now g id t s = record { entities = s.entities; relations = s.relations }

  delete_entity-IsStored :
      (now : Time) (g : Graph) (ee : EntityEvent) → IsStored g → IsStored (delete_entity now g ee)
  unfolding delete_entity evict_tombstones
  delete_entity-IsStored now g ee s =
      let retired = retire g ee.entity.id (get g.entities ee.entity.id) in
      let kept = retire-IsStored g ee.entity.id (get g.entities ee.entity.id) s in
      elim (Bool-cases (has g.deleted ee.entity.id)) [
        | inl d ↦ rw d kept
        | inr d ↦ rw d (
            evict_queue-IsStored (bury now retired ee.entity.id ee.recorded_at).tombstones
              (bury now retired ee.entity.id ee.recorded_at)
              (bury-IsStored now retired ee.entity.id ee.recorded_at kept))
      ]

  change_identity-IsStored : (g : Graph) (e : Entity) → IsStored g → IsStored (change_identity g e)
  unfolding change_identity put_entity
  change_identity-IsStored g e s = elim (Option-cases (get g.entities e.id)) [
    | inl p ↦ rw (p, change_identity) (put_entity-IsStored g e s)
    | inr (old, p) ↦
        rw (p, change_identity)
          (record {
            entities = put-Keyed entity_id g.entities e.id e refl s.entities;
            relations = s.relations;
          })
  ]

  ensure_entity-IsStored : (g : Graph) (e : Entity) → IsStored g → IsStored (ensure_entity g e)
  unfolding ensure_entity
  ensure_entity-IsStored g e s = elim (Bool-cases (has g.entities e.id)) [
    | inl p ↦ rw p s
    | inr p ↦ rw p (put_entity-IsStored g e s)
  ]

  apply_entity-IsStored :
      (now : Time) (g : Graph) (ct : ChangeType) (ee : EntityEvent)
      → IsStored g
      → IsStored (apply_entity now g ct ee)
  unfolding apply_entity
  apply_entity-IsStored now g entity_created ee s = put_entity-IsStored g ee.entity s
  apply_entity-IsStored now g entity_identity_changed ee s = change_identity-IsStored g ee.entity s
  apply_entity-IsStored now g entity_attribute_updated ee s = put_entity-IsStored g ee.entity s
  apply_entity-IsStored now g entity_state_changed ee s = put_entity-IsStored g ee.entity s
  apply_entity-IsStored now g entity_deleted ee s = delete_entity-IsStored now g ee s
  apply_entity-IsStored now g entity_unchanged ee s = ensure_entity-IsStored g ee.entity s
  apply_entity-IsStored now g _ ee s = s

put_relation-IsStored : (g : Graph) (r : Relation) → IsStored g → IsStored (put_relation g r)
unfolding put_relation
put_relation-IsStored g r s = record {
  entities = s.entities;
  relations = put-Keyed relation_id g.relations r.id r refl s.relations;
}

apply_relation-IsStored :
    (g : Graph) (ct : ChangeType) (r : Relation) → IsStored g → IsStored (apply_relation g ct r)
unfolding apply_relation drop_relation
apply_relation-IsStored g relation_added r s = put_relation-IsStored g r s
apply_relation-IsStored g relation_attribute_changed r s = put_relation-IsStored g r s
apply_relation-IsStored g relation_removed r s = record {
  entities = s.entities;
  relations = remove-Keyed relation_id g.relations r.id s.relations;
}
apply_relation-IsStored g _ r s = s

module _ ⦃runtime : Runtime⦄ where
  apply_parts-IsStored :
      (now : Time) (g : Graph) (oe : Option EntityEvent) (or : Option RelationEvent)
      → IsStored g
      → IsStored (apply_parts now g oe or)
  unfolding apply_parts
  apply_parts-IsStored now g (some ee) or s = apply_entity-IsStored now g ee.change_type ee s
  apply_parts-IsStored now g none (some re) s =
      apply_relation-IsStored g re.change_type re.relation s
  apply_parts-IsStored now g none none s = s

  pub replay-IsStored :
      (now : Time) (evs : List Event) (g : Graph) → IsStored g → IsStored (replay now g evs)
  unfolding replay apply
  replay-IsStored now [] g s = s
  replay-IsStored now (ev ∷ evs) g s =
      replay-IsStored now evs (apply now g ev) (apply_parts-IsStored now g ev.entity ev.relation s)

  new-IsStored : (limit : ℕ) → IsStored (new_with_tombstone_cap limit)
  unfolding new_with_tombstone_cap
  new-IsStored limit = record { entities = tt; relations = tt }

  -- For every log: the snapshot of the graph it folds into, replayed into a fresh graph, restores
  -- under each id the entity if it is live and the relation, and leaves no id soft-deleted.
  pub restart :
      (now time : Time) (n limit limit' : ℕ) (evs : List Event) (id : Str)
      → let g = replay now (new_with_tombstone_cap limit) evs in
        let r = replay now (new_with_tombstone_cap limit') (snapshot_events time n g) in
        (get_entity r id ≡ (if has g.deleted id then none else get g.entities id, false))
        × (get r.relations id ≡ get g.relations id)
  restart now time n limit limit' evs id =
      replay-snapshot_events now time n limit' (replay now (new_with_tombstone_cap limit) evs) id
        (replay-IsStored now evs (new_with_tombstone_cap limit) (new-IsStored limit))
