-- ===== src/Projection/Restart.antt =====
-- The snapshot of internal/projection/graph.go, replayed into a fresh graph.
use toise.Common.{
  ℕ, ◌+◌, ◌≡◌, refl, false, none, some, List, [], ◌∷◌, ◌++◌, arith, if◌then◌else◌, Str, str_Eq,
  str_eq_iff, str_eq_refl,
}
use toise.Common.Dict.{Dict, get, put, remove, has, get-put, get-remove}
use toise.Model.Value.{Runtime}
use toise.Model.Entity.{Entity, Relation}
use toise.Model.Event.{Event, Time}
use toise.Projection.Graph.{
  Graph, Set, new_with_tombstone_cap, put_entity, put_relation, replay, apply,
}
use toise.Projection.Reads.{
  values, live_entries, entity_count, get_entity, snapshot_entities, snapshot_relations,
  snapshot_events,
}

-- Every value is stored under its own id, once.
module _ {V : Type 0} (id_of : V → Str) where
  abbrev pub Keyed : Dict Str V → Type 0
  Keyed [] = Unit
  Keyed ((k, v) ∷ d) = (id_of v ≡ k) × (has d k ≡ false) × Keyed d

  -- The map after a put of each value.
  abbrev put_all : Dict Str V → List V → Dict Str V
  put_all d [] = d
  put_all d (v ∷ vs) = put_all (put d (id_of v) v) vs

  get-put_all :
      (d' d : Dict Str V) (j : Str)
      → Keyed d'
      → get (put_all d (values d')) j ≡ elim (get d' j) [ none ↦ get d j | some v ↦ some v ]
  unfolding get
  get-put_all [] d j h = refl
  get-put_all ((k, v) ∷ d') d j h =
      ground
        (arith, get-put_all d' (put d (id_of v) v) j h.2, get-put d (id_of v) j v, str_eq_iff k j)

  get-live_entries :
      (deleted : Set) (d : Dict Str V) (j : Str)
      → Keyed d
      → get (live_entries deleted d) j ≡ (if has deleted j then none else get d j)
  unfolding get
  get-live_entries deleted [] j h = ground arith
  get-live_entries deleted ((k, v) ∷ d) j h =
      ground (arith, get-live_entries deleted d j h.2, str_eq_iff k j)

  live_entries-Keyed : (deleted : Set) (d : Dict Str V) → Keyed d → Keyed (live_entries deleted d)
  live_entries-Keyed deleted [] h = tt
  live_entries-Keyed deleted ((k, v) ∷ d) h =
      ground (arith, live_entries-Keyed deleted d h.2, get-live_entries deleted d k h.2)

  pub remove-Keyed : (d : Dict Str V) (k : Str) → Keyed d → Keyed (remove d k)
  unfolding remove
  remove-Keyed [] k h = tt
  remove-Keyed ((j, v) ∷ d) k h = ground (arith, remove-Keyed d k h.2, get-remove d k j)

  pub put-Keyed : (d : Dict Str V) (k : Str) (v : V) → id_of v ≡ k → Keyed d → Keyed (put d k v)
  unfolding put
  put-Keyed d k v e h = ground (arith, remove-Keyed d k h, get-remove d k k, str_eq_refl k)

get_nothing : {V : Type 0} (id : Str) → get {V = V} [] id ≡ none
unfolding get
get_nothing id = refl

fresh_fields :
    (limit : ℕ)
    → ((new_with_tombstone_cap limit).entities ≡ [])
      × ((new_with_tombstone_cap limit).deleted ≡ [])
      × ((new_with_tombstone_cap limit).relations ≡ [])
unfolding new_with_tombstone_cap
fresh_fields limit = (refl, refl, refl)

abbrev pub entity_id : Entity → Str
entity_id e = e.id

abbrev pub relation_id : Relation → Str
relation_id r = r.id

-- The graph's entities and relations are stored under their own ids.
pub record IsStored (g : Graph) : Type 0 where
  pub entities : Keyed entity_id g.entities
  pub relations : Keyed relation_id g.relations

module _ ⦃runtime : Runtime⦄ where
  abbrev put_entities : Graph → List Entity → Graph
  put_entities g [] = g
  put_entities g (e ∷ es) = put_entities (put_entity g e) es

  abbrev put_relations : Graph → List Relation → Graph
  put_relations g [] = g
  put_relations g (r ∷ rs) = put_relations (put_relation g r) rs

  replay-snapshot_entities :
      (now time : Time) (n : ℕ) (es : List Entity) (rest : List Event) (g : Graph)
      → replay now g (snapshot_entities time n es ++ rest) ≡ replay now (put_entities g es) rest
  unfolding replay apply snapshot_entities
  replay-snapshot_entities now time n [] rest g = refl
  replay-snapshot_entities now time n (e ∷ es) rest g =
      replay-snapshot_entities now time (n + 1) es rest (put_entity g e)

  replay-snapshot_relations :
      (now time : Time) (n : ℕ) (rs : List Relation) (g : Graph)
      → replay now g (snapshot_relations time n rs) ≡ put_relations g rs
  unfolding replay apply snapshot_relations
  replay-snapshot_relations now time n [] g = refl
  replay-snapshot_relations now time n (r ∷ rs) g =
      replay-snapshot_relations now time (n + 1) rs (put_relation g r)

  entities-put_entities :
      (es : List Entity) (g : Graph)
      → (put_entities g es).entities ≡ put_all entity_id g.entities es
  unfolding put_entity
  entities-put_entities [] g = refl
  entities-put_entities (e ∷ es) g = entities-put_entities es (put_entity g e)

  deleted-put_entities :
      (es : List Entity) (g : Graph) → g.deleted ≡ [] → (put_entities g es).deleted ≡ []
  unfolding put_entity remove
  deleted-put_entities [] g h = h
  deleted-put_entities (e ∷ es) g h = deleted-put_entities es (put_entity g e) (rw h)

  relations-put_entities :
      (es : List Entity) (g : Graph) → (put_entities g es).relations ≡ g.relations
  unfolding put_entity
  relations-put_entities [] g = refl
  relations-put_entities (e ∷ es) g = relations-put_entities es (put_entity g e)

  put_relations-keeps :
      (rs : List Relation) (g : Graph)
      → ((put_relations g rs).entities ≡ g.entities)
        × ((put_relations g rs).deleted ≡ g.deleted)
        × ((put_relations g rs).relations ≡ put_all relation_id g.relations rs)
  unfolding put_relation
  put_relations-keeps [] g = (refl, refl, refl)
  put_relations-keeps (r ∷ rs) g = put_relations-keeps rs (put_relation g r)

  -- Replaying a snapshot of a graph into a fresh one restores every live entity and every relation
  -- under its id, and nothing that was soft-deleted.
  pub replay-snapshot_events :
      (now time : Time) (n limit : ℕ) (g : Graph) (id : Str)
      → IsStored g
      → (get_entity (replay now (new_with_tombstone_cap limit) (snapshot_events time n g)) id
          ≡ (if has g.deleted id then none else get g.entities id, false))
        × (get (replay now (new_with_tombstone_cap limit) (snapshot_events time n g)).relations id
            ≡ get g.relations id)
  unfolding snapshot_events get_entity
  replay-snapshot_events now time n limit g id s =
      let fresh = new_with_tombstone_cap limit in
      let live = values (live_entries g.deleted g.entities) in
      let mid = put_entities fresh live in
      let kept = put_relations-keeps (values g.relations) mid in
      rw
        (
          replay-snapshot_entities now time n live
              (snapshot_relations time (n + entity_count g) (values g.relations)) fresh,
          replay-snapshot_relations now time (n + entity_count g) (values g.relations) mid,
          kept.0,
          kept.1,
          kept.2,
          entities-put_entities live fresh,
          deleted-put_entities live fresh (fresh_fields limit).1,
          relations-put_entities live fresh,
          (fresh_fields limit).0,
          (fresh_fields limit).2,
        )
        (ground (
          arith,
          get-put_all entity_id (live_entries g.deleted g.entities) [] id
              (live_entries-Keyed entity_id g.deleted g.entities s.entities),
          get-live_entries entity_id g.deleted g.entities id s.entities,
          get-put_all relation_id g.relations [] id s.relations,
          get_nothing {V = Entity} id,
          get_nothing {V = Relation} id,
          get_nothing {V = Unit {0}} id,
        ))
