-- ===== src/Model/Registry.antt =====
-- internal/model/registry.go: the vocabulary.
use toise.Common.{Bool, true, false, Option, none, some, [], ◌∷◌, Str, codes, str_Eq}
use toise.Common.Dict.{Dict, get, has}

pub data ImpactFlow : Type 0 where
  impact_both impact_to_from impact_from_to impact_none : ImpactFlow

pub record RelationTypeDef : Type 0 where
  pub type : Str
  pub from : Str
  pub to : Str
  pub structural : Bool
  pub impact : ImpactFlow

entry : Str → Str → Str → Bool → ImpactFlow → Str × RelationTypeDef
entry type from to structural impact =
    (type, record { type = type; from = from; to = to; structural = structural; impact = impact })

unfoldable pub entity_types : Dict Str (Unit {0})
entity_types =
    (codes "host", tt)
    ∷ (codes "process", tt)
    ∷ (codes "network.interface", tt)
    ∷ (codes "network.address", tt)
    ∷ (codes "network.route", tt)
    ∷ (codes "service.listener", tt)
    ∷ (codes "k8s.node", tt)
    ∷ (codes "host.service", tt)
    ∷ (codes "cloud.resource", tt)
    ∷ (codes "service.instance", tt)
    ∷ (codes "db", tt)
    ∷ (codes "network.device", tt)
    ∷ (codes "network.endpoint", tt)
    ∷ (codes "compute.vm", tt)
    ∷ (codes "container", tt)
    ∷ (codes "pod", tt)
    ∷ (codes "network.segment", tt)
    ∷ (codes "network.neighbor", tt)
    ∷ []

unfoldable pub relation_types : Dict Str RelationTypeDef
unfolding entry
relation_types =
    entry (codes "runs_on") (codes "process") (codes "host") true impact_to_from
    ∷ entry (codes "has_interface") (codes "host") (codes "network.interface") true impact_from_to
    ∷ entry (codes "bound_to") (codes "network.address") (codes "network.interface") true
        impact_to_from
    ∷ entry (codes "next_hop_via") (codes "network.route") (codes "network.address") true
        impact_to_from
    ∷ entry (codes "listens_on") (codes "service.listener") (codes "network.interface") true
        impact_to_from
    ∷ entry (codes "monitors") (codes "service.instance") (codes "") true impact_none
    ∷ entry (codes "has_route") (codes "network.device") (codes "network.route") true impact_from_to
    ∷ entry (codes "neighbor_of") (codes "network.neighbor") (codes "network.interface") true
        impact_none
    ∷ entry (codes "connected_to") (codes "network.interface") (codes "network.interface") true
        impact_both
    ∷ entry (codes "depends_on") (codes "service.instance") (codes "network.endpoint") true
        impact_to_from
    ∷ entry (codes "same_as") (codes "") (codes "") false impact_none
    ∷ entry (codes "resolves_to") (codes "network.neighbor") (codes "network.interface") false
        impact_none
    ∷ entry (codes "aggregated_into") (codes "network.interface") (codes "network.interface") true
        impact_none
    ∷ entry (codes "attached_to") (codes "container") (codes "network.segment") true impact_to_from
    ∷ entry (codes "has_segment") (codes "service.instance") (codes "network.segment") true
        impact_from_to
    ∷ entry (codes "routes_via") (codes "network.device") (codes "network.device") true
        impact_to_from
    ∷ entry (codes "forwards_to") (codes "network.device") (codes "network.device") true impact_both
    ∷ entry (codes "adjacent_to") (codes "network.device") (codes "network.device") true impact_both
    ∷ []

unfoldable pub is_known_entity_type : Str → Bool
unfolding entity_types
is_known_entity_type t = has entity_types t

unfoldable pub relation_def : Str → Option RelationTypeDef
unfolding relation_types
relation_def t = get relation_types t

-- An unknown relation is read as one that carries an impact both ways.
unfoldable pub impact_flow_of : Str → ImpactFlow
unfolding relation_types
impact_flow_of t = elim (get relation_types t) [ none ↦ impact_both | some def ↦ def.impact ]
