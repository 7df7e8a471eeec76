-- ===== src/Examples/Indexes.antt =====
-- Concrete runs of the theorems on the projection's indexes, the overlay and retractions.
use toise.Common.{
  str_eq_iff, arith, List, [], codes, false, inl, none, refl, some, str_Eq, str_eq, true, ◌&&◌,
  ◌==◌, ◌||◌, ◌↔◌, ◌∷◌, ◌≡◌,
}
use toise.Common.Dict.{remove, get, has, put}
use toise.Projection.Graph.{
  put_relation, Graph, apply_relation, new_with_tombstone_cap, put_entity, replay,
}
use toise.Model.Value.{canonical}
use toise.Change.Relations.{resolve_endpoints, nothing}
use toise.Examples.{
  relation_added, asserted, at, created, db, edge, linked, plain, seen_edge, seen_host, speakers,
  web,
}
use toise.Model.Entity.{compute_relation_id, identity_hash}
use toise.Projection.Adjacency.{
  IsLinked, apply_relation-IsLinked, lists-relations_touching, lists_relation, new-IsLinked,
}
use toise.Change.Staged.{new_staged, overlay_get_relation, overlay_match_identity}
use toise.Change.Deletion.{delete_entity_locked, delete_entity_locked-keeps}
use toise.Projection.History.{AllFit}
use toise.Change.Reconcile.{remove_relation_locked, remove_relation_locked-keeps}
use toise.Projection.Reads.{get_relation, match_identity, matches, relations_touching}
use toise.Projection.Index.{hash_at}
use toise.Change.Engine.{Engine, current_scope}
use toise.Projection.Matching.{match_identity-replay, match_identity-put_entity}
use toise.Change.Staged.Overlay.{overlay_get_relation-stage_all, stage_all}
use toise.Model.Event.{Event}
use toise.Change.State.{Speakers}
use toise.Change.RefKey.{ref_key}
use toise.Change.Alias.{alias_Eq, claim_Eq}

abbrev start : Graph
start = new_with_tombstone_cap 3

-- The log of one host.
abbrev one_host : List Event
one_host = created web ∷ []

overlay_get_relation-stage_all_example :
    overlay_get_relation (some (stage_all new_staged (linked ∷ []))) start (codes "r")
    ≡ get_relation (replay 9 start (linked ∷ [])) (codes "r")
overlay_get_relation-stage_all_example =
    overlay_get_relation-stage_all 9 start (linked ∷ []) (codes "r")

one_host-fits : AllFit 9 start one_host
unfolding new_with_tombstone_cap get
one_host-fits = ((inl refl, inl refl), tt)

match_identity-replay_example :
    (match_identity (replay 9 start one_host) web.type web.identity ≡ some (codes "1")) ↔ (
      (hash_at (replay 9 start one_host).entities (codes "1")
        ≡ some (identity_hash web.type web.identity))
      × (has (replay 9 start one_host).deleted (codes "1") ≡ false))
match_identity-replay_example =
    match_identity-replay 9 3 one_host web.type web.identity (codes "1") one_host-fits

apply_relation-IsLinked_example : IsLinked (apply_relation start relation_added edge)
unfolding new_with_tombstone_cap get
apply_relation-IsLinked_example =
    apply_relation-IsLinked start relation_added edge (new-IsLinked 3) (inl refl, inl refl)

abbrev one_edge : Graph
one_edge = apply_relation start relation_added edge

lists-relations_touching_example :
    lists_relation (relations_touching one_edge (codes "1") []) (codes "r")
    ≡ elim (get one_edge.relations (codes "r")) [
      | none ↦ false
      | some r ↦ matches [] r.type && (r.from == codes "1" || r.to == codes "1")
    ]
unfolding apply_relation put_relation put get remove new_with_tombstone_cap
lists-relations_touching_example =
    lists-relations_touching one_edge (codes "1") [] (codes "r")
      (apply_relation-IsLinked start relation_added edge (new-IsLinked 3) (inl refl, inl refl))
      (λ rid r h. ground (arith, h, str_eq_iff edge.id rid))

abbrev scanned : Engine
scanned = record asserted { graph = put_entity (put_entity start db) web }

delete_entity_locked-keeps_example :
    (left : Speakers) × (delete_entity_locked 9 (seen_host (codes "web")) scanned
      ≡ (record scanned { refs = put scanned.refs (codes "1") left }, none, true))
    × (get left (codes "scanner") ≡ some (at 20))
unfolding get str_eq overlay_match_identity current_scope ref_key
delete_entity_locked-keeps_example =
    delete_entity_locked-keeps 9 (seen_host (codes "web")) scanned (codes "1") speakers
      (codes "scanner") (at 20) (match_identity-put_entity (put_entity start db) web) refl
      (refl, (refl, tt)) refl refl refl

remove_relation_locked-keeps_example :
    (left : Speakers) × (remove_relation_locked 9 seen_edge scanned ≡ (
      record scanned {
        rel_refs =
            put scanned.rel_refs
              (compute_relation_id (codes "depends_on") (codes "1") (codes "2"))
              left;
      },
      nothing,
    ))
    × (get left (codes "scanner") ≡ some (at 20))
unfolding get str_eq overlay_match_identity current_scope ref_key compute_relation_id
    resolve_endpoints match_identity put_entity put identity_hash canonical new_with_tombstone_cap
remove_relation_locked-keeps_example =
    remove_relation_locked-keeps 9 seen_edge scanned (codes "1") (codes "2") speakers
      (codes "scanner") (at 20) refl refl (refl, (refl, tt)) refl refl refl
