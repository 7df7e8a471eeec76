-- ===== src/Projection/Matching.antt =====
-- Identity matching in internal/projection/graph.go: exact, and resurrecting within the window.
use toise.Common.{
  ℕ, ◌≡◌, ◌↔◌, inl, inr, true, false, some, List, arith, Str, str_Eq, str_eq_refl, Option-cases,
}
use toise.Common.Dict.{get, has, get-put, get-remove}
use toise.Model.Value.{Runtime, KeyValue}
use toise.Model.Entity.{Entity, hash_of, identity_hash}
use toise.Model.Event.{Event, Time}
use toise.Projection.Graph.{Graph, put_entity, new_with_tombstone_cap, replay}
use toise.Projection.History.{AllFit, replay-IsIndexed, new-IsIndexed}
use toise.Projection.Reads.{match_identity, match_tombstone, lapsed}
use toise.Projection.Index.{hash_at, IsIndexed}

module _ ⦃runtime : Runtime⦄ where
  -- With exact indexes MatchIdentity finds an id exactly when it stores a live entity with the
  -- identity hash.
  pub match_identity_lem :
      (g : Graph) (type : Str) (identity : List KeyValue) (id : Str)
      → IsIndexed g
      → (match_identity g type identity ≡ some id) ↔ (
          (hash_at g.entities id ≡ some (identity_hash type identity)) × (has g.deleted id ≡ false))
  unfolding match_identity
  match_identity_lem g type identity id x =
      let h = identity_hash type identity in
      (
        λ p. elim (Option-cases (get g.by_hash h)) [
          | inl e ↦ ground arith
          | inr (owner, e) ↦ ground (arith, x.live_sound h id)
        ],
        λ q. ground (arith, x.live_complete h id q.0 q.1),
      )

  -- Behind a log under which no id changes its identity and no live identity has two ids, folded
  -- from the empty graph, MatchIdentity finds an id exactly when the graph stores a live entity
  -- with the identity hash under it.
  pub match_identity-replay :
      (now : Time) (limit : ℕ) (evs : List Event) (type : Str) (identity : List KeyValue) (id : Str)
      → AllFit now (new_with_tombstone_cap limit) evs
      → let g = replay now (new_with_tombstone_cap limit) evs in
        (match_identity g type identity ≡ some id) ↔ (
          (hash_at g.entities id ≡ some (identity_hash type identity)) × (has g.deleted id ≡ false))
  match_identity-replay now limit evs type identity id f =
      match_identity_lem (replay now (new_with_tombstone_cap limit) evs) type identity id
        (replay-IsIndexed now evs (new_with_tombstone_cap limit) (new-IsIndexed limit) f)

  -- A tombstone that matches is soft-deleted, has the identity hash, and is within its window.
  pub match_tombstone_lem :
      (now : Time) (g : Graph) (type : Str) (identity : List KeyValue) (id : Str)
      → IsIndexed g
      → match_tombstone now g type identity ≡ some id
      → (hash_at g.entities id ≡ some (identity_hash type identity))
        × (has g.deleted id ≡ true)
        × (lapsed now g id ≡ false)
  unfolding match_tombstone
  match_tombstone_lem now g type identity id x p =
      let h = identity_hash type identity in
      elim (Option-cases (get g.tomb_by_hash h)) [
        | inl e ↦ ground arith
        | inr (owner, e) ↦ ground (arith, x.tomb_sound h id)
      ]

  -- Storing an entity makes its identity match its id.
  pub match_identity-put_entity :
      (g : Graph) (e : Entity) → match_identity (put_entity g e) e.type e.identity ≡ some e.id
  unfolding match_identity put_entity
  match_identity-put_entity g e = ground (
    arith,
    get-put g.by_hash (hash_of e) (hash_of e) e.id,
    get-remove g.deleted e.id e.id,
    str_eq_refl (hash_of e),
    str_eq_refl e.id,
  )
