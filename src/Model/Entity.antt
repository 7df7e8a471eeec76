-- ===== src/Model/Entity.antt =====
-- internal/model/entity.go, relation.go, ids.go and changetype.go.
use toise.Common.{
  ℕ, ◌+◌, Bool, true, false, List, [], ◌∷◌, ◌++◌, map, take, ltb, ◌/◌, ◌%◌, if◌then◌else◌, Str,
}
use toise.Common.Dict.{Dict}
use toise.Model.Value.{Runtime, KeyValue, canonical, sort_by_key}

pub record Entity : Type 0 where
  pub id : Str
  pub type : Str
  pub identity : List KeyValue
  pub attributes : List KeyValue
  pub schema_url : Str

pub record Relation : Type 0 where
  pub id : Str
  pub type : Str
  pub from : Str
  pub to : Str
  pub attributes : List KeyValue
  pub structural : Bool

pub data ChangeType : Type 0 where
  change_unspecified entity_created entity_deleted entity_identity_changed
        entity_attribute_updated :
      ChangeType
  entity_state_changed entity_unchanged relation_added relation_removed relation_attribute_changed :
      ChangeType

abbrev pub is_entity : ChangeType → Bool
is_entity change_unspecified = false
is_entity relation_added = false
is_entity relation_removed = false
is_entity relation_attribute_changed = false
is_entity _ = true

abbrev pub is_relation : ChangeType → Bool
is_relation relation_added = true
is_relation relation_removed = true
is_relation relation_attribute_changed = true
is_relation _ = false

-- The separators 0x1e and 0x1f.
abbrev pub sep_field : ℕ
sep_field = 0x1e

abbrev pub sep_record : ℕ
sep_record = 0x1f

-- hex.Encode
unfoldable pub hex_digit : ℕ → ℕ
hex_digit n = if ltb n 10 then 48 + n else 87 + n

unfoldable pub hex : Str → Str
unfolding hex_digit
hex [] = []
hex (b ∷ s) = hex_digit (b / 16) ∷ hex_digit (b % 16) ∷ hex s

-- One identifying attribute: key, separator, canonical value, separator.
unfoldable pub identity_records : Dict Str Str → Str
identity_records [] = []
identity_records ((k, c) ∷ kvs) = k ++ (sep_field ∷ (c ++ (sep_record ∷ identity_records kvs)))

-- The bytes that ComputeRelationID hashes.
unfoldable pub relation_bytes : Str → Str → Str → Str
relation_bytes type from to = type ++ (sep_record ∷ (from ++ (sep_record ∷ to)))

module _ ⦃runtime : Runtime⦄ where
  abbrev pub keyed : List KeyValue → Dict Str Str
  keyed kvs = map (λ kv. (kv.key, canonical kv.value)) kvs

  -- The bytes that IdentityHash hashes.
  unfoldable pub identity_bytes : Str → List KeyValue → Str
  unfolding identity_records sort_by_key
  identity_bytes type identity =
      type ++ sep_record ∷ identity_records (sort_by_key (keyed identity))

  -- idHashBytes
  abbrev pub id_hash_bytes : ℕ
  id_hash_bytes = 16

  unfoldable pub identity_hash : Str → List KeyValue → Str
  unfolding identity_bytes hex
  identity_hash type identity =
      type ++ 58 ∷ hex (take id_hash_bytes (runtime.sha256 (identity_bytes type identity)))

  unfoldable pub compute_relation_id : Str → Str → Str → Str
  unfolding relation_bytes hex
  compute_relation_id type from to =
      type ++ 58 ∷ hex (take id_hash_bytes (runtime.sha256 (relation_bytes type from to)))

  abbrev pub hash_of : Entity → Str
  hash_of e = identity_hash e.type e.identity
