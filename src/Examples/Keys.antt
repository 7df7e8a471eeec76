-- ===== src/Examples/Keys.antt =====
-- Concrete runs of the theorems on speaker keys, references, aliases and attributes.
use toise.Change.RefKey.{ref_key, split_ref_key, split_ref_key-overflow, split_ref_key-ref_key}
use toise.Change.Alias.{
  AliasClaimKey, AliasKey, IdentityAliasIndex, alias_Eq, alias_eq, claim_Eq,
  new_identity_alias_index, record_claim, resolve,
}
use toise.Examples.{at, name_is, plain}
use toise.Change.Diff.{canon_map, diff_attributes, diff_attributes_lem, lists, same_at, state_keys}
use toise.Change.Alias.Laws.{
  Agrees, new-Agrees, record_claim-Agrees, record_claim-conflict, resolve_lem,
}
use toise.Change.Liveness.{floor_deadline, floor_deadline_lem}
use toise.Common.Decimal.{itoa, max_int}
use toise.Common.Dict.{get, has, put, remove}
use toise.Common.{
  Str, [], any, arith, codes, none, not, refl, some, str_Eq, str_eq, true, ℕ, ◌++◌, ◌+◌, ◌∷◌, ◌≡◌,
  ◌≤◌, ◌⊎◌,
}

abbrev agent : Str
agent = codes "agent"

abbrev snmp : Str
snmp = codes "snmp"

split_ref_key-ref_key_example : split_ref_key (ref_key agent snmp) ≡ some (agent, snmp)
split_ref_key-ref_key_example = split_ref_key-ref_key agent snmp (omega arith)

split_ref_key-overflow_example : split_ref_key (0 ∷ itoa max_int ++ 0 ∷ agent) ≡ none
split_ref_key-overflow_example = split_ref_key-overflow agent (omega arith)

abbrev past : ℕ
past = 4

abbrev a_minute : ℕ
a_minute = 60

floor_deadline_lem_example :
    (4 ≤ floor_deadline 4 60 9)
    × ((9 + 60 ≤ floor_deadline 4 60 9)
        ⊎ (((past ≡ 0) ⊎ (a_minute ≡ 0)) × (floor_deadline 4 60 9 ≡ 4)))
floor_deadline_lem_example = floor_deadline_lem past a_minute 9

abbrev nick : AliasKey
nick = record { attribute_key = codes "n"; alias_value = codes "w" }

abbrev first : AliasClaimKey
first = record { alias = nick; canonical_value = codes "web" }

abbrev second : AliasClaimKey
second = record { alias = nick; canonical_value = codes "db" }

abbrev claimed : IdentityAliasIndex
claimed = (record_claim new_identity_alias_index first agent (at 20)).0

record_claim-Agrees_example : Agrees claimed
record_claim-Agrees_example =
    record_claim-Agrees new_identity_alias_index first agent (at 20) new-Agrees

resolve_lem_example :
    has claimed.speakers (record { alias = nick; canonical_value = codes "db" })
    ≡ str_eq (codes "web") (codes "db")
unfolding record_claim put get remove resolve alias_eq str_eq
resolve_lem_example =
    resolve_lem claimed nick (codes "web") (codes "db")
      (record_claim-Agrees new_identity_alias_index first agent (at 20) new-Agrees) refl

record_claim-conflict_example :
    (resolve (record_claim claimed second agent (at 20)).0 nick ≡ none)
    × ((record_claim claimed second agent (at 20)).1 ≡ true)
    × ((record_claim claimed second agent (at 20)).2 ≡ true)
unfolding record_claim put get remove resolve alias_eq str_eq
record_claim-conflict_example =
    record_claim-conflict claimed second (codes "web") agent (at 20)
      (record_claim-Agrees new_identity_alias_index first agent (at 20) new-Agrees) refl refl

diff_attributes_lem_example :
    (lists (diff_attributes (name_is agent ∷ []) (name_is snmp ∷ [])).0 (codes "n")
      ≡ not (
          same_at
            (canon_map (name_is agent ∷ []) [])
            (canon_map (name_is snmp ∷ []) [])
            (codes "n")))
    × ((diff_attributes (name_is agent ∷ []) (name_is snmp ∷ [])).1
        ≡ any (λ j. has state_keys j) (diff_attributes (name_is agent ∷ []) (name_is snmp ∷ [])).0)
diff_attributes_lem_example =
    diff_attributes_lem (name_is agent ∷ []) (name_is snmp ∷ []) (codes "n")
