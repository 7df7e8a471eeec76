-- ===== src/Projection/Adjacency.antt =====
-- The adjacency index of internal/projection/graph.go against the stored relations.
use toise.Common.{
  ◌||◌, ◌++◌, map, ℕ, ◌≡◌, refl, ◌⊎◌, inl, inr, Bool, true, false, ◌&&◌, Option, none, some, List,
  [], ◌∷◌, arith, if◌then◌else◌, Str, str_Eq, str_eq_iff, str_eq_refl, ◌==◌, Option-cases,
}
use toise.Common.Dict.{get-empty, Dict, get, put, remove, has, get-put, get-remove}
use toise.Model.Value.{sort_by_key, insert_by_key}
use toise.Projection.Reads.{
  values, sort_relations, matches, touch_each, relations_touching, touch_one,
}
use toise.Model.Entity.{
  Relation, ChangeType, relation_added, relation_removed, relation_attribute_changed,
}
use toise.Projection.Graph.{
  Graph, Set, members, add_member, remove_member, put_relation, drop_relation, apply_relation,
  new_with_tombstone_cap,
}

pub has-add_member :
    (d : Dict Str Set) (k id j i : Str)
    → has (members (add_member d k id) j) i
      ≡ (if k == j && id == i then true else has (members d j) i)
unfolding add_member
has-add_member d k id j i =
    ground (
      arith,
      get-put d k j (put (members d k) id tt),
      get-put (members d k) id i tt,
      str_eq_iff k j,
    )

pub has-remove_member :
    (d : Dict Str Set) (k id j i : Str)
    → has (members (remove_member d k id) j) i
      ≡ (if k == j && id == i then false else has (members d j) i)
unfolding remove_member
has-remove_member d k id j i = removed (get d k) refl
  where
    removed :
        (o : Option Set)
        → get d k ≡ o
        → has (members (remove_member d k id) j) i
          ≡ (if k == j && id == i then false else has (members d j) i)
    removed none e =
        rw (e, remove_member) (ground (arith, str_eq_iff k j, get-empty {V = Unit {0}} i))
    removed (some s) e =
        rw (e, remove_member)
          (ground (arith, get-put d k j (remove s id), get-remove s id i, str_eq_iff k j))

-- One side of the index: `end` is the endpoint that it is keyed by.
abbrev pub end_at : (Relation → Str) → Dict Str Relation → Str → Option Str
end_at end relations rid = elim (get relations rid) [ none ↦ none | some r ↦ some (end r) ]

-- A relation is in the set of an entity exactly when it is stored and has the entity for its end.
pub record Links (end : Relation → Str) (relations : Dict Str Relation) (adjacent : Dict Str Set)
    : Type 0 where
  pub sound :
      (x rid : Str) → has (members adjacent x) rid ≡ true → end_at end relations rid ≡ some x
  pub complete :
      (x rid : Str) → end_at end relations rid ≡ some x → has (members adjacent x) rid ≡ true

module _ (end : Relation → Str) (relations : Dict Str Relation) (adjacent : Dict Str Set)
    (r : Relation)
    (same : (end_at end relations r.id ≡ none) ⊎ (end_at end relations r.id ≡ some (end r)))
    (l : Links end relations adjacent) where
  put-Links : Links end (put relations r.id r) (add_member adjacent (end r) r.id)
  put-Links = record {
    sound = λ x rid h. ground (
      arith,
      has-add_member adjacent (end r) r.id x rid,
      get-put relations r.id rid r,
      l.sound x rid,
      str_eq_iff (end r) x,
      str_eq_iff r.id rid,
    );
    complete = λ x rid h. ground (
      arith,
      has-add_member adjacent (end r) r.id x rid,
      get-put relations r.id rid r,
      l.complete x rid,
      str_eq_iff (end r) x,
      str_eq_iff r.id rid,
      str_eq_refl x,
    );
  }

  drop-Links : Links end (remove relations r.id) (remove_member adjacent (end r) r.id)
  drop-Links = record {
    sound = λ x rid h. ground (
      arith,
      has-remove_member adjacent (end r) r.id x rid,
      get-remove relations r.id rid,
      l.sound x rid,
      str_eq_iff (end r) x,
      str_eq_iff r.id rid,
    );
    complete = λ x rid h. ground (
      arith,
      has-remove_member adjacent (end r) r.id x rid,
      get-remove relations r.id rid,
      l.complete x rid,
      str_eq_iff (end r) x,
      str_eq_iff r.id rid,
    );
  }

abbrev pub from_of : Relation → Str
from_of r = r.from

abbrev pub to_of : Relation → Str
to_of r = r.to

pub record IsLinked (g : Graph) : Type 0 where
  pub out : Links from_of g.relations g.outgoing
  pub into : Links to_of g.relations g.incoming

-- The endpoints of a relation are part of its id.
abbrev pub SameEnds : Graph → Relation → Type 0
SameEnds g r =
    ((end_at from_of g.relations r.id ≡ none) ⊎ (end_at from_of g.relations r.id ≡ some r.from))
    × ((end_at to_of g.relations r.id ≡ none) ⊎ (end_at to_of g.relations r.id ≡ some r.to))

-- Each relation event of a fixed set of endpoints keeps both sides of the adjacency index exact.
pub apply_relation-IsLinked :
    (g : Graph) (ct : ChangeType) (r : Relation)
    → IsLinked g
    → SameEnds g r
    → IsLinked (apply_relation g ct r)
unfolding apply_relation put_relation drop_relation
apply_relation-IsLinked g relation_added r l s = record {
  out = put-Links from_of g.relations g.outgoing r s.0 l.out;
  into = put-Links to_of g.relations g.incoming r s.1 l.into;
}
apply_relation-IsLinked g relation_attribute_changed r l s = record {
  out = put-Links from_of g.relations g.outgoing r s.0 l.out;
  into = put-Links to_of g.relations g.incoming r s.1 l.into;
}
apply_relation-IsLinked g relation_removed r l s = record {
  out = drop-Links from_of g.relations g.outgoing r s.0 l.out;
  into = drop-Links to_of g.relations g.incoming r s.1 l.into;
}
apply_relation-IsLinked g _ r l s = l

pub new-IsLinked : (limit : ℕ) → IsLinked (new_with_tombstone_cap limit)
unfolding new_with_tombstone_cap get
new-IsLinked limit = record {
  out = record { sound = λ x rid h. cc; complete = λ x rid h. cc };
  into = record { sound = λ x rid h. cc; complete = λ x rid h. cc };
}

-- RelationsTouching
abbrev pub lists_relation : List Relation → Str → Bool
lists_relation [] rid = false
lists_relation (r ∷ rs) rid = r.id == rid || lists_relation rs rid

lists-append :
    (rs : List Relation) (r : Relation) (rid : Str)
    → lists_relation (rs ++ r ∷ []) rid ≡ (lists_relation rs rid || r.id == rid)
lists-append [] r rid = ground arith
lists-append (x ∷ rs) r rid = ground (arith, lists-append rs r rid)

-- The sort keeps the relations.
lists-insert :
    (r : Relation) (d : Dict Str Relation) (rid : Str)
    → lists_relation (values (insert_by_key r.id r d)) rid
      ≡ (r.id == rid || lists_relation (values d) rid)
unfolding insert_by_key
lists-insert r [] rid = refl
lists-insert r ((j, b) ∷ d) rid = ground (arith, lists-insert r d rid)

lists-sort :
    (rs : List Relation) (rid : Str)
    → lists_relation (sort_relations rs) rid ≡ lists_relation rs rid
unfolding sort_by_key
lists-sort [] rid = refl
lists-sort (r ∷ rs) rid =
    ground (arith, lists-insert r (sort_by_key (map (λ x. (x.id, x)) rs)) rid, lists-sort rs rid)

-- A relation is stored under the id, and has the wanted type.
abbrev pub stored_with : Graph → Str → Str → Bool
stored_with g rel_type rid = elim (get g.relations rid) [
  | none ↦ false
  | some r ↦ matches rel_type r.type
]

-- What the loop keeps: the ids seen are those of the edges found.
abbrev Agrees : Set × List Relation → Type 0
Agrees acc = (rid : Str) → lists_relation acc.1 rid ≡ has acc.0 rid

module _ (g : Graph) (rel_type : Str)
    (keyed : (rid : Str) (r : Relation) → get g.relations rid ≡ some r → r.id ≡ rid) where
  touch_one-Agrees :
      (i : Str) (acc : Set × List Relation) → Agrees acc → Agrees (touch_one g rel_type i acc)
  unfolding touch_one
  touch_one-Agrees i (seen, out) same rid = elim (Option-cases (get g.relations i)) [
    | inl e ↦ ground (arith, same rid)
    | inr (r, e) ↦
        ground (arith, same rid, keyed i r e, lists-append out r rid, get-put seen i rid tt)
  ]

  lists-touch_one :
      (i : Str) (acc : Set × List Relation) (rid : Str)
      → Agrees acc
      → lists_relation (touch_one g rel_type i acc).1 rid
        ≡ (lists_relation acc.1 rid || (i == rid && stored_with g rel_type rid))
  unfolding touch_one
  lists-touch_one i (seen, out) rid same = elim (Option-cases (get g.relations i)) [
    | inl e ↦ ground (arith, same rid, str_eq_iff i rid)
    | inr (r, e) ↦ ground (arith, same rid, keyed i r e, lists-append out r rid, str_eq_iff i rid)
  ]

  lists-touch_each :
      (rids : Set) (acc : Set × List Relation) (rid : Str)
      → Agrees acc
      → Agrees (touch_each g rel_type rids acc)
        × (lists_relation (touch_each g rel_type rids acc).1 rid
            ≡ (lists_relation acc.1 rid || (has rids rid && stored_with g rel_type rid)))
  unfolding touch_each get
  lists-touch_each [] acc rid same = (same, ground arith)
  lists-touch_each ((i, u) ∷ rids) acc rid same =
      let rest =
        lists-touch_each rids (touch_one g rel_type i acc) rid (touch_one-Agrees i acc same) in
      (rest.0, ground (arith, rest.1, lists-touch_one i acc rid same))

-- In a linked graph RelationsTouching lists an edge exactly when it is stored, has the wanted type,
-- and starts or ends at the entity.
pub lists-relations_touching :
    (g : Graph) (id rel_type rid : Str)
    → IsLinked g
    → ((rid : Str) (r : Relation) → get g.relations rid ≡ some r → r.id ≡ rid)
    → lists_relation (relations_touching g id rel_type) rid ≡ elim (get g.relations rid) [
      | none ↦ false
      | some r ↦ matches rel_type r.type && (r.from == id || r.to == id)
    ]
unfolding relations_touching
lists-relations_touching g id rel_type rid l keyed =
    let first = touch_each g rel_type (members g.outgoing id) ([], []) in
    let a =
      lists-touch_each g rel_type keyed (members g.outgoing id) ([], []) rid
        (λ i. ground (arith, get-empty {V = Unit {0}} i)) in
    let b = lists-touch_each g rel_type keyed (members g.incoming id) first rid a.0 in
    let sorted = lists-sort (touch_each g rel_type (members g.incoming id) first).1 rid in
    elim (Option-cases (get g.relations rid)) [
      | inl e ↦ ground (arith, sorted, a.1, b.1)
      | inr (r, e) ↦ ground (
        arith,
        sorted,
        a.1,
        b.1,
        l.out.sound id rid,
        l.out.complete id rid,
        l.into.sound id rid,
        l.into.complete id rid,
        str_eq_iff r.from id,
        str_eq_iff r.to id,
      )
    ]
