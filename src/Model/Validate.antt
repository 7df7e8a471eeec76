-- ===== src/Model/Validate.antt =====
-- The validate methods of entity.go, relation.go and event.go, and NewRelation.
use toise.Common.{
  Bool, true, false, ◌&&◌, ◌||◌, not, Option, none, some, List, [], ◌∷◌, nat_eq, Str, ◌==◌, str_Eq,
  is_some,
}
use toise.Model.Value.{Runtime, KeyValue, is_valid}
use toise.Model.Registry.{is_known_entity_type, relation_def}
use toise.Model.Entity.{
  Entity, Relation, ChangeType, change_unspecified, is_entity, is_relation, compute_relation_id,
}
use toise.Model.Event.{Event, EntityEvent, RelationEvent, Time}

pub data Error : Type 0 where
  empty_type unknown_type no_identity empty_key duplicate_key invalid_value empty_endpoint : Error
  change_type_unset change_type_mismatch missing_entity zero_event_time zero_recorded_at
        empty_schema_version :
      Error

-- A nil error is `none`; the first failing check is the result.
infixr 20 ◌orelse◌
abbrev pub ◌orelse◌ : Option Error → Option Error → Option Error
none orelse next = next
some e orelse next = some e

abbrev pub fail_if : Bool → Error → Option Error
fail_if true e = some e
fail_if false e = none

abbrev pub any_key : List Str → Str → Bool
any_key [] k = false
any_key (j ∷ seen) k = j == k || any_key seen k

abbrev pub is_unspecified : ChangeType → Bool
is_unspecified change_unspecified = true
is_unspecified _ = false

abbrev pub no_identity_check : List KeyValue → Option Error
no_identity_check [] = some no_identity
no_identity_check (kv ∷ kvs) = none

-- The loop of validateKeyValues with the keys seen so far.
unfoldable pub validate_from : List Str → List KeyValue → Option Error
validate_from seen [] = none
validate_from seen (kv ∷ kvs) =
    fail_if (kv.key == []) empty_key
    orelse fail_if (any_key seen kv.key) duplicate_key
    orelse fail_if (not (is_valid kv.value)) invalid_value
    orelse validate_from (kv.key ∷ seen) kvs

unfoldable pub validate_key_values : List KeyValue → Option Error
unfolding validate_from
validate_key_values kvs = validate_from [] kvs

unfoldable pub validate_entity : Bool → Entity → Option Error
validate_entity vocabulary e =
    fail_if (e.type == []) empty_type
    orelse fail_if (vocabulary && not (is_known_entity_type e.type)) unknown_type
    orelse no_identity_check e.identity
    orelse validate_key_values e.identity
    orelse validate_key_values e.attributes

unfoldable pub validate_relation : Bool → Relation → Option Error
validate_relation vocabulary r =
    fail_if (r.type == []) empty_type
    orelse fail_if (vocabulary && not (is_some (relation_def r.type))) unknown_type
    orelse fail_if (r.from == [] || r.to == []) empty_endpoint
    orelse validate_key_values r.attributes

unfoldable pub common_event_checks : Time → Time → Str → Option Error
common_event_checks event_time recorded_at schema_version =
    fail_if (nat_eq event_time 0) zero_event_time
    orelse fail_if (nat_eq recorded_at 0) zero_recorded_at
    orelse fail_if (schema_version == []) empty_schema_version

unfoldable pub validate_entity_event : Bool → EntityEvent → Option Error
unfolding common_event_checks
validate_entity_event vocabulary e =
    fail_if (is_unspecified e.change_type) change_type_unset
    orelse fail_if (not (is_entity e.change_type)) change_type_mismatch
    orelse common_event_checks e.event_time e.recorded_at e.schema_version
    orelse validate_entity vocabulary e.entity

unfoldable pub validate_relation_event : Bool → RelationEvent → Option Error
unfolding common_event_checks
validate_relation_event vocabulary r =
    fail_if (is_unspecified r.change_type) change_type_unset
    orelse fail_if (not (is_relation r.change_type)) change_type_mismatch
    orelse common_event_checks r.event_time r.recorded_at r.schema_version
    orelse validate_relation vocabulary r.relation

validate_parts : Bool → Option EntityEvent → Option RelationEvent → Option Error
validate_parts vocabulary (some e) (some r) = some change_type_mismatch
validate_parts vocabulary (some e) none = validate_entity_event vocabulary e
validate_parts vocabulary none (some r) = validate_relation_event vocabulary r
validate_parts vocabulary none none = some missing_entity

unfoldable pub validate_envelope : Bool → Event → Option Error
unfolding validate_parts
validate_envelope vocabulary ev = validate_parts vocabulary ev.entity ev.relation

module _ ⦃runtime : Runtime⦄ where
  unfoldable pub new_relation : Str → Str → Str → List KeyValue → Relation
  new_relation type from to attributes = record {
    id = compute_relation_id type from to;
    type = type;
    from = from;
    to = to;
    attributes = attributes;
    structural = elim (relation_def type) [ none ↦ false | some def ↦ def.structural ];
  }
