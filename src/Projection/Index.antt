-- ===== src/Projection/Index.antt =====
-- The identity indexes of internal/projection/graph.go, byHash and tombByHash.
use toise.Common.{
  ◌≡◌, refl, ◌⊎◌, inl, inr, true, false, Option, none, some, List, [], ◌∷◌, arith, ltb, Str, str_Eq,
  str_eq_iff, str_eq_refl, Bool-cases,
}
use toise.Projection.Graph.{
  Graph, Set, put_entity, forget_hash, drop_tombstone, evict_queue, evict_tombstones, retire, bury,
  delete_entity,
}
use toise.Model.Entity.{Entity, hash_of}
use toise.Model.Event.{EntityEvent, Time}
use toise.Common.Dict.{Dict, get, put, remove, has, get-put, get-remove}
use toise.Model.Value.{Runtime}

module _ ⦃runtime : Runtime⦄ where
  -- The identity hash of the entity that is stored under an id.
  abbrev pub hash_at : Dict Str Entity → Str → Option Str
  hash_at entities id = elim (get entities id) [ none ↦ none | some e ↦ some (hash_of e) ]

  -- byHash maps a hash to an id exactly when that id stores a live entity with the hash;
  -- tombByHash maps a hash to ids of soft-deleted entities with the hash alone.
  pub record Indexes (entities : Dict Str Entity) (deleted : Set)
      (by_hash tomb_by_hash : Dict Str Str) : Type 0 where
    pub live_sound :
        (h id : Str)
        → get by_hash h ≡ some id
        → (hash_at entities id ≡ some h) × (has deleted id ≡ false)
    pub live_complete :
        (h id : Str)
        → hash_at entities id ≡ some h
        → has deleted id ≡ false
        → get by_hash h ≡ some id
    pub tomb_sound :
        (h id : Str)
        → get tomb_by_hash h ≡ some id
        → (hash_at entities id ≡ some h) × (has deleted id ≡ true)

  abbrev pub IsIndexed : Graph → Type 0
  IsIndexed g = Indexes g.entities g.deleted g.by_hash g.tomb_by_hash

  -- A key of the map belongs to the id, or to no one.
  abbrev pub Free : Dict Str Str → Str → Str → Type 0
  Free d k id = (get d k ≡ none) ⊎ (get d k ≡ some id)

  pub put_entity-IsIndexed :
      (g : Graph) (e : Entity)
      → IsIndexed g
      → (hash_at g.entities e.id ≡ none) ⊎ (hash_at g.entities e.id ≡ some (hash_of e))
      → Free g.by_hash (hash_of e) e.id
      → IsIndexed (put_entity g e)
  unfolding put_entity
  put_entity-IsIndexed g e x same free = record {
    live_sound = λ h id p. ground (
      arith,
      get-put g.by_hash (hash_of e) h e.id,
      get-put g.entities e.id id e,
      get-remove g.deleted e.id id,
      x.live_sound h id,
      str_eq_iff (hash_of e) h,
      str_eq_iff e.id id,
    );
    live_complete = λ h id p q. ground (
      arith,
      get-put g.by_hash (hash_of e) h e.id,
      get-put g.entities e.id id e,
      get-remove g.deleted e.id id,
      x.live_complete h id,
      str_eq_iff (hash_of e) h,
      str_eq_iff e.id id,
    );
    tomb_sound = λ h id p. ground (
      arith,
      get-remove g.tomb_by_hash (hash_of e) h,
      get-put g.entities e.id id e,
      get-remove g.deleted e.id id,
      x.tomb_sound h id,
      str_eq_iff (hash_of e) h,
      str_eq_iff e.id id,
    );
  }

  pub drop_tombstone-IsIndexed :
      (g : Graph) (id : Str) (o : Option Entity)
      → get g.entities id ≡ o
      → has g.deleted id ≡ true
      → IsIndexed g
      → IsIndexed (drop_tombstone g id)
  unfolding drop_tombstone
  drop_tombstone-IsIndexed g id o stored d x = record {
    live_sound = λ h j p. ground (
      arith,
      get-remove g.entities id j,
      get-remove g.deleted id j,
      x.live_sound h j,
      str_eq_iff id j,
    );
    live_complete = λ h j p q. ground (
      arith,
      get-remove g.entities id j,
      get-remove g.deleted id j,
      x.live_complete h j,
      str_eq_iff id j,
    );
    tomb_sound = λ h j p. tomb h j o stored p;
  }
    where
      tomb :
          (h j : Str) (o : Option Entity)
          → get g.entities id ≡ o
          → get (forget_hash g.tomb_by_hash (get g.entities id) id) h ≡ some j
          → (hash_at (remove g.entities id) j ≡ some h) × (has (remove g.deleted id) j ≡ true)
      tomb h j none q p = ground (
        arith,
        get-remove g.entities id j,
        get-remove g.deleted id j,
        x.tomb_sound h j,
        str_eq_iff id j,
      )
      tomb h j (some e) q p = ground (
        arith,
        get-remove g.entities id j,
        get-remove g.deleted id j,
        get-remove g.tomb_by_hash (hash_of e) h,
        x.tomb_sound h j,
        str_eq_iff id j,
        str_eq_iff (hash_of e) h,
        str_eq_refl id,
      )

  evict_queue-IsIndexed :
      (queue : List Str) (g : Graph) → IsIndexed g → IsIndexed (evict_queue queue g)
  unfolding evict_queue
  evict_queue-IsIndexed [] g x = record {
    live_sound = x.live_sound;
    live_complete = x.live_complete;
    tomb_sound = x.tomb_sound;
  }
  evict_queue-IsIndexed (id ∷ queue) g x =
      elim (Bool-cases (ltb g.tombstone_cap g.live_tombstones)) [
        | inr e ↦ rw e (record {
          live_sound = x.live_sound;
          live_complete = x.live_complete;
          tomb_sound = x.tomb_sound;
        })
        | inl e ↦ elim (Bool-cases (has g.deleted id)) [
          | inl d ↦
              rw (e, d)
                (evict_queue-IsIndexed queue (drop_tombstone g id)
                  (drop_tombstone-IsIndexed g id (get g.entities id) refl d x))
          | inr d ↦ rw (e, d) (evict_queue-IsIndexed queue g x)
        ]
      ]

  -- What a deletion needs: the hash of the stored entity is its own, or free.
  abbrev pub Releasable : Graph → Str → Type 0
  Releasable g id = (h : Str) → hash_at g.entities id ≡ some h → Free g.by_hash h id

  -- The state between the two halves of a deletion is no graph of its own: the id counts as
  -- deleted.
  retire-Indexes :
      (g : Graph) (id : Str) (o : Option Entity)
      → get g.entities id ≡ o
      → IsIndexed g
      → Releasable g id
      → Indexes
          (retire g id o).entities
          (put g.deleted id tt)
          (retire g id o).by_hash
          (retire g id o).tomb_by_hash
  unfolding retire
  retire-Indexes g id none stored x free = record {
    live_sound =
        λ h j p. ground (arith, get-put g.deleted id j tt, x.live_sound h j, str_eq_iff id j);
    live_complete =
        λ h j p q. ground (arith, get-put g.deleted id j tt, x.live_complete h j, str_eq_iff id j);
    tomb_sound =
        λ h j p. ground (arith, get-put g.deleted id j tt, x.tomb_sound h j, str_eq_iff id j);
  }
  retire-Indexes g id (some e) stored x free = record {
    live_sound = λ h j p. ground (
      arith,
      get-put g.deleted id j tt,
      get-remove g.by_hash (hash_of e) h,
      x.live_sound h j,
      str_eq_iff id j,
      str_eq_iff (hash_of e) h,
    );
    live_complete = λ h j p q. ground (
      arith,
      get-put g.deleted id j tt,
      get-remove g.by_hash (hash_of e) h,
      x.live_complete h j,
      free (hash_of e),
      str_eq_iff id j,
      str_eq_iff (hash_of e) h,
    );
    tomb_sound = λ h j p. ground (
      arith,
      get-put g.deleted id j tt,
      get-put g.tomb_by_hash (hash_of e) h id,
      x.tomb_sound h j,
      str_eq_iff id j,
      str_eq_iff (hash_of e) h,
    );
  }

  -- The indexes read a deletion set through its members alone.
  Indexes-deleted :
      (d d' : Set) {entities : Dict Str Entity} {by_hash tomb_by_hash : Dict Str Str}
      → ((j : Str) → has d' j ≡ has d j)
      → Indexes entities d by_hash tomb_by_hash
      → Indexes entities d' by_hash tomb_by_hash
  Indexes-deleted d d' same x = record {
    live_sound = λ h j p. ground (arith, x.live_sound h j p, same j);
    live_complete = λ h j p q. ground (arith, x.live_complete h j p, same j);
    tomb_sound = λ h j p. ground (arith, x.tomb_sound h j p, same j);
  }

  retire_buried :
      (now : Time) (g : Graph) (id : Str) (recorded_at : Time) (o : Option Entity)
      → Indexes
          (retire g id o).entities
          (put g.deleted id tt)
          (retire g id o).by_hash
          (retire g id o).tomb_by_hash
      → IsIndexed (bury now (retire g id o) id recorded_at)
  unfolding bury retire
  retire_buried now g id recorded_at none x = x
  retire_buried now g id recorded_at (some e) x = x

  retire_again :
      (g : Graph) (id : Str) (o : Option Entity)
      → has g.deleted id ≡ true
      → Indexes
          (retire g id o).entities
          (put g.deleted id tt)
          (retire g id o).by_hash
          (retire g id o).tomb_by_hash
      → IsIndexed (retire g id o)
  unfolding retire
  retire_again g id none d x =
      Indexes-deleted (put g.deleted id tt) g.deleted
        (λ j. ground (arith, get-put g.deleted id j tt, str_eq_iff id j)) x
  retire_again g id (some e) d x =
      Indexes-deleted (put g.deleted id tt) g.deleted
        (λ j. ground (arith, get-put g.deleted id j tt, str_eq_iff id j)) x

  pub delete_entity-IsIndexed :
      (now : Time) (g : Graph) (ee : EntityEvent)
      → IsIndexed g
      → Releasable g ee.entity.id
      → IsIndexed (delete_entity now g ee)
  unfolding delete_entity evict_tombstones
  delete_entity-IsIndexed now g ee x free =
      let id = ee.entity.id in
      let retired = retire-Indexes g id (get g.entities id) refl x free in
      elim (Bool-cases (has g.deleted id)) [
        | inl d ↦ rw d (retire_again g id (get g.entities id) d retired)
        | inr d ↦ rw d (
            evict_queue-IsIndexed
              (bury now (retire g id (get g.entities id)) id ee.recorded_at).tombstones
              (bury now (retire g id (get g.entities id)) id ee.recorded_at)
              (retire_buried now g id ee.recorded_at (get g.entities id) retired))
      ]
