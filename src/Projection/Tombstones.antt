-- ===== src/Projection/Tombstones.antt =====
-- The bounded tombstone cache of internal/projection/graph.go: its counter, queue and deadlines.
use toise.Common.{
  ℕ, ◌+◌, ◌-◌, ◌≤◌, ◌≡◌, refl, inl, inr, Bool, true, false, ◌||◌, Option, none, some, List, [], ◌∷◌,
  ◌++◌, arith, if◌then◌else◌, ltb, length, Str, ◌==◌, str_Eq, str_eq_iff, Bool-cases, Option-cases,
  str_eq_refl,
}
use toise.Common.Dict.{
  Dict, get, remove, has, get-put, get-remove, Distinct, remove-Distinct, put-Distinct,
  length-remove, length-put,
}
use toise.Model.Value.{Runtime}
use toise.Model.Entity.{
  Entity, ChangeType, entity_created, entity_deleted, entity_identity_changed,
  entity_attribute_updated, entity_state_changed, entity_unchanged, Relation, relation_added,
  relation_removed, relation_attribute_changed,
}
use toise.Model.Event.{Event, EntityEvent, RelationEvent, Time}
use toise.Projection.Graph.{
  Graph, Set, new_with_tombstone_cap, put_entity, drop_tombstone, evict_queue, evict_tombstones,
  retire, bury, delete_entity, change_identity, ensure_entity, apply_entity, apply_relation, apply,
  replay, apply_parts, put_relation, drop_relation,
}

abbrev pub contains : List Str → Str → Bool
contains [] id = false
contains (j ∷ queue) id = j == id || contains queue id

-- What holds between two operations, the queue given apart: the counter is the number of
-- tombstones, each is in the queue, and only they have deadlines.
pub record Counts (queue : List Str) (deleted : Set) (deadlines : Dict Str Time) (live : ℕ)
    : Type 0 where
  pub distinct : Distinct deleted
  pub counted : live ≡ length deleted
  pub queued : (id : Str) → has deleted id ≡ true → contains queue id ≡ true
  pub armed : (id : Str) → has deadlines id ≡ true → has deleted id ≡ true

abbrev pub IsCounted : Graph → Type 0
IsCounted g = Counts g.tombstones g.deleted g.tomb_deadline g.live_tombstones

pub record IsBounded (g : Graph) : Type 0 where
  pub counts : IsCounted g
  pub bounded : g.live_tombstones ≤ g.tombstone_cap

module _ {queue : List Str} {deleted : Set} {deadlines : Dict Str Time} {live : ℕ}
    (c : Counts queue deleted deadlines live) where
  -- An id leaves the tombstones, and its deadline with it.
  pub unbury-Counts :
      (id : Str)
      → Counts queue
          (remove deleted id)
          (if has deleted id then remove deadlines id else deadlines)
          (if has deleted id then live - 1 else live)
  unbury-Counts id = record {
    distinct = remove-Distinct deleted id c.distinct;
    counted = ground (arith, length-remove deleted id c.distinct, c.counted);
    queued = λ j h. ground (arith, get-remove deleted id j, c.queued j);
    armed = λ j h.
        ground
          (arith, get-remove deleted id j, get-remove deadlines id j, c.armed j, str_eq_iff id j);
  }

  pub drop-Counts :
      (id : Str)
      → has deleted id ≡ true
      → Counts queue (remove deleted id) (remove deadlines id) (live - 1)
  drop-Counts id h = record {
    distinct = remove-Distinct deleted id c.distinct;
    counted = ground (arith, length-remove deleted id c.distinct, c.counted);
    queued = λ j p. ground (arith, get-remove deleted id j, c.queued j);
    armed = λ j p. ground (arith, get-remove deleted id j, get-remove deadlines id j, c.armed j);
  }

contains-append :
    (queue : List Str) (id j : Str) → contains (queue ++ id ∷ []) j ≡ (contains queue j || id == j)
contains-append [] id j = ground arith
contains-append (i ∷ queue) id j = ground (arith, contains-append queue id j)

-- The head of the queue goes: it is no tombstone any more, or has just been dropped.
pop-Counts :
    {queue : List Str} {deleted : Set} {deadlines : Dict Str Time} {live : ℕ} (id : Str)
    → Counts (id ∷ queue) deleted deadlines live
    → has deleted id ≡ false
    → Counts queue deleted deadlines live
pop-Counts id c h = record {
  distinct = c.distinct;
  counted = c.counted;
  queued = λ j p. ground (arith, c.queued j p, str_eq_iff id j);
  armed = c.armed;
}

absent : (d : Set) (id : Str) → has (remove d id) id ≡ false
absent d id = ground (arith, get-remove d id id, str_eq_refl id)

empty_queue :
    {deleted : Set} {deadlines : Dict Str Time} {live : ℕ}
    → Counts [] deleted deadlines live
    → live ≡ 0
unfolding get
empty_queue {deleted = []} c = c.counted
empty_queue {deleted = (k, v) ∷ d} c = ground (arith, c.queued k, str_eq_refl k)

module _ ⦃runtime : Runtime⦄ where
  put_entity-IsCounted : (g : Graph) (e : Entity) → IsCounted g → IsCounted (put_entity g e)
  unfolding put_entity
  put_entity-IsCounted g e c = unbury-Counts c e.id

  put_entity-bound : (g : Graph) (e : Entity) → (put_entity g e).live_tombstones ≤ g.live_tombstones
  unfolding put_entity
  put_entity-bound g e = ground arith

  evict_queue-IsBounded :
      (queue : List Str) (g : Graph)
      → Counts queue g.deleted g.tomb_deadline g.live_tombstones
      → IsBounded (evict_queue queue g)
  unfolding evict_queue drop_tombstone
  evict_queue-IsBounded [] g c = record { counts = c; bounded = omega (arith, empty_queue c) }
  evict_queue-IsBounded (id ∷ queue) g c =
      elim (Bool-cases (ltb g.tombstone_cap g.live_tombstones)) [
        | inr e ↦ rw e (record { counts = c; bounded = ground arith })
        | inl e ↦ elim (Bool-cases (has g.deleted id)) [
          | inl d ↦
              rw (e, d)
                (evict_queue-IsBounded queue (drop_tombstone g id)
                  (pop-Counts id (drop-Counts c id d) (absent g.deleted id)))
          | inr d ↦ rw (e, d) (evict_queue-IsBounded queue g (pop-Counts id c d))
        ]
      ]

  bury-Counts :
      (now : Time) (g : Graph) (id : Str) (recorded_at : Time)
      → IsCounted g
      → has g.deleted id ≡ false
      → IsCounted (bury now g id recorded_at)
  unfolding bury
  bury-Counts now g id recorded_at c h = record {
    distinct = put-Distinct g.deleted id tt c.distinct;
    counted = ground (arith, length-put g.deleted id tt c.distinct, c.counted);
    queued = λ j p.
        ground (arith, get-put g.deleted id j tt, c.queued j, contains-append g.tombstones id j);
    armed = λ j p. ground (
      arith,
      get-put g.deleted id j tt,
      get-put g.tomb_deadline id j (recorded_at + g.tombstone_ttl),
      get-put g.tomb_deadline id j (now + g.tombstone_ttl),
      c.armed j,
    );
  }

  retire-eq : (g : Graph) (id : Str) (o : Option Entity) → (retire g id o).deleted ≡ g.deleted
  unfolding retire
  retire-eq g id none = refl
  retire-eq g id (some e) = refl

  retire-IsBounded :
      (g : Graph) (id : Str) (o : Option Entity) → IsBounded g → IsBounded (retire g id o)
  unfolding retire
  retire-IsBounded g id none b = b
  retire-IsBounded g id (some e) b = record { counts = b.counts; bounded = b.bounded }

  delete_entity-IsBounded :
      (now : Time) (g : Graph) (ee : EntityEvent) → IsBounded g → IsBounded (delete_entity now g ee)
  unfolding delete_entity evict_tombstones
  delete_entity-IsBounded now g ee b = elim (Bool-cases (has g.deleted ee.entity.id)) [
    | inl d ↦ rw d (retire-IsBounded g ee.entity.id (get g.entities ee.entity.id) b)
    | inr d ↦ rw d (
        evict_queue-IsBounded _ _ (
          bury-Counts now (retire g ee.entity.id (get g.entities ee.entity.id)) ee.entity.id
            ee.recorded_at (retire-IsBounded g ee.entity.id (get g.entities ee.entity.id) b).counts
            (rw (retire-eq g ee.entity.id (get g.entities ee.entity.id)) d)))
  ]

  put_entity-IsBounded : (g : Graph) (e : Entity) → IsBounded g → IsBounded (put_entity g e)
  unfolding put_entity
  put_entity-IsBounded g e b = record {
    counts = put_entity-IsCounted g e b.counts;
    bounded = ground (arith, b.bounded);
  }

  change_identity-IsBounded :
      (g : Graph) (e : Entity) → IsBounded g → IsBounded (change_identity g e)
  unfolding change_identity
  change_identity-IsBounded g e b = elim (Option-cases (get g.entities e.id)) [
    | inl p ↦ rw (p, change_identity) (put_entity-IsBounded g e b)
    | inr (old, p) ↦
        rw (p, change_identity)
          (put_entity-IsBounded _ e (record { counts = b.counts; bounded = b.bounded }))
  ]

  ensure_entity-IsBounded : (g : Graph) (e : Entity) → IsBounded g → IsBounded (ensure_entity g e)
  unfolding ensure_entity
  ensure_entity-IsBounded g e b = elim (Bool-cases (has g.entities e.id)) [
    | inl p ↦ rw p b
    | inr p ↦ rw p (put_entity-IsBounded g e b)
  ]

  apply_entity-IsBounded :
      (now : Time) (g : Graph) (ct : ChangeType) (ee : EntityEvent)
      → IsBounded g
      → IsBounded (apply_entity now g ct ee)
  unfolding apply_entity
  apply_entity-IsBounded now g entity_created ee b = put_entity-IsBounded g ee.entity b
  apply_entity-IsBounded now g entity_identity_changed ee b =
      change_identity-IsBounded g ee.entity b
  apply_entity-IsBounded now g entity_attribute_updated ee b = put_entity-IsBounded g ee.entity b
  apply_entity-IsBounded now g entity_state_changed ee b = put_entity-IsBounded g ee.entity b
  apply_entity-IsBounded now g entity_deleted ee b = delete_entity-IsBounded now g ee b
  apply_entity-IsBounded now g entity_unchanged ee b = ensure_entity-IsBounded g ee.entity b
  apply_entity-IsBounded now g _ ee b = b

apply_relation-IsBounded :
    (g : Graph) (ct : ChangeType) (r : Relation) → IsBounded g → IsBounded (apply_relation g ct r)
unfolding apply_relation put_relation drop_relation
apply_relation-IsBounded g relation_added r b = record { counts = b.counts; bounded = b.bounded }
apply_relation-IsBounded g relation_attribute_changed r b = record {
  counts = b.counts;
  bounded = b.bounded;
}
apply_relation-IsBounded g relation_removed r b = record { counts = b.counts; bounded = b.bounded }
apply_relation-IsBounded g _ r b = b

module _ ⦃runtime : Runtime⦄ where
  pub apply-IsBounded :
      (now : Time) (g : Graph) (ev : Event) → IsBounded g → IsBounded (apply now g ev)
  unfolding apply
  apply-IsBounded now g ev b = go ev.entity ev.relation
    where
      go :
          (oe : Option EntityEvent) (or : Option RelationEvent)
          → IsBounded (apply_parts now g oe or)
      go (some ee) or = apply_entity-IsBounded now g ee.change_type ee b
      go none (some re) = apply_relation-IsBounded g re.change_type re.relation b
      go none none = b

  -- Where the tombstones are counted and within the cap, they stay so, whatever events are
  -- replayed.
  pub replay-IsBounded :
      (now : Time) (evs : List Event) (g : Graph) → IsBounded g → IsBounded (replay now g evs)
  unfolding replay
  replay-IsBounded now [] g b = b
  replay-IsBounded now (ev ∷ evs) g b =
      replay-IsBounded now evs (apply now g ev) (apply-IsBounded now g ev b)

  pub new-IsBounded : (limit : ℕ) → IsBounded (new_with_tombstone_cap limit)
  unfolding new_with_tombstone_cap get
  new-IsBounded limit = record {
    counts = record { distinct = tt; counted = refl; queued = λ j p. cc; armed = λ j p. cc };
    bounded = omega arith;
  }
