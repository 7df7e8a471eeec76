-- ===== src/Change/Alias.antt =====
-- internal/change/alias.go: the identity alias index.
pub mod Laws
use toise.Common.{
  is_empty, ℕ, ◌+◌, ◌-◌, ◌*◌, ◌%◌, ◌^◌, ◌≤◌, ◌<◌, ◌≡◌, ◌↔◌, refl, Bool, true, false, ◌&&◌, ◌||◌,
  not, Option, none, some, List, [], ◌∷◌, arith, if◌then◌else◌, ltb, leb, nat_eq, Str, codes, Eq,
  str_Eq, str_eq_iff, ◌==◌, is_some, length,
}
use toise.Common.Dict.{Dict, get, put, remove, has}
use toise.Common.Decimal.{pos, negsuc}
use toise.Model.Value.{Runtime, Value, KeyValue, string, int, double, canonical}
use toise.Model.Event.{Time, Duration}
use toise.Projection.Graph.{Set, members, add_member, remove_member}
use toise.Change.State.{LiveRef, Speakers, RelationObservation}
use toise.Change.Liveness.{max_plausible_liveness_promise, drop_lapsed, zero_ref}

pub record AliasKey : Type 0 where
  pub attribute_key : Str
  pub alias_value : Str

pub record AliasClaimKey : Type 0 where
  pub alias : AliasKey
  pub canonical_value : Str

unfoldable pub alias_eq : AliasKey → AliasKey → Bool
alias_eq a b = a.attribute_key == b.attribute_key && a.alias_value == b.alias_value

pub alias_eq_iff : (a b : AliasKey) → (alias_eq a b ≡ true) ↔ (a ≡ b)
unfolding alias_eq
alias_eq_iff a b =
    ground
      (arith, str_eq_iff a.attribute_key b.attribute_key, str_eq_iff a.alias_value b.alias_value)

instance abbrev pub alias_Eq : Eq AliasKey
alias_Eq = record { same = alias_eq; decides = alias_eq_iff }

unfoldable pub claim_eq : AliasClaimKey → AliasClaimKey → Bool
claim_eq a b = a.alias == b.alias && a.canonical_value == b.canonical_value

pub claim_eq_iff : (a b : AliasClaimKey) → (claim_eq a b ≡ true) ↔ (a ≡ b)
unfolding claim_eq
claim_eq_iff a b =
    ground (arith, alias_eq_iff a.alias b.alias, str_eq_iff a.canonical_value b.canonical_value)

instance abbrev pub claim_Eq : Eq AliasClaimKey
claim_Eq = record { same = claim_eq; decides = claim_eq_iff }

pub record IdentityAliasIndex : Type 0 where
  pub speakers : Dict AliasClaimKey Speakers
  pub by_alias : Dict AliasKey Set

abbrev pub new_identity_alias_index : IdentityAliasIndex
new_identity_alias_index = record { speakers = []; by_alias = [] }

abbrev pub candidates : Dict AliasKey Set → AliasKey → Set
candidates by_alias k = elim (get by_alias k) [ none ↦ [] | some s ↦ s ]

abbrev pub claim_speakers : Dict AliasClaimKey Speakers → AliasClaimKey → Speakers
claim_speakers speakers claim = elim (get speakers claim) [ none ↦ [] | some s ↦ s ]

-- The index, whether the claim is new, and whether its alias has just become ambiguous.
unfoldable pub record_claim :
    IdentityAliasIndex → AliasClaimKey → Str → LiveRef → IdentityAliasIndex × Bool × Bool
record_claim idx claim speaker ref =
    let before = candidates idx.by_alias claim.alias in
    (
      record {
        speakers = put idx.speakers claim (put (claim_speakers idx.speakers claim) speaker ref);
        by_alias = put idx.by_alias claim.alias (put before claim.canonical_value tt);
      },
      not (has idx.speakers claim),
      not (has before claim.canonical_value)
          && nat_eq (length (put before claim.canonical_value tt)) 2,
    )

only_candidate : Set → Option Str
only_candidate [] = none
only_candidate ((v, u) ∷ []) = some v
only_candidate ((v, u) ∷ w ∷ more) = none

-- Any number of candidates other than one resolves nothing.
unfoldable pub resolve : IdentityAliasIndex → AliasKey → Option Str
unfolding only_candidate
resolve idx k = only_candidate (candidates idx.by_alias k)

unfoldable pub live : IdentityAliasIndex → AliasClaimKey → Bool
live idx claim = ltb 0 (length (claim_speakers idx.speakers claim))

-- delete(byAlias[alias], value), and the alias when no candidate is left.
unfoldable pub retract : Dict AliasKey Set → AliasClaimKey → Dict AliasKey Set
retract by_alias claim =
    let left = remove (candidates by_alias claim.alias) claim.canonical_value in
    if is_empty left then remove by_alias claim.alias else put by_alias claim.alias left

-- One claim of the sweep: its lapsed speakers go, and the claim with the last one.
unfoldable pub sweep_claim :
    Time → IdentityAliasIndex → AliasClaimKey → Speakers → IdentityAliasIndex
unfolding retract
sweep_claim now idx claim speakers =
    let left = drop_lapsed now speakers in
    if is_empty left
    then record { speakers = remove idx.speakers claim; by_alias = retract idx.by_alias claim }
    else record idx { speakers = put idx.speakers claim left }

unfoldable pub sweep_claims :
    Time → Dict AliasClaimKey Speakers → IdentityAliasIndex → IdentityAliasIndex
unfolding sweep_claim
sweep_claims now [] idx = idx
sweep_claims now ((claim, speakers) ∷ claims) idx =
    sweep_claims now claims (sweep_claim now idx claim speakers)

unfoldable pub sweep_aliases : Time → IdentityAliasIndex → IdentityAliasIndex
unfolding sweep_claims
sweep_aliases now idx = sweep_claims now idx.speakers idx

-- Doubles by their bits: 1.0, 0.9 and -0.0. The bits of the doubles from 0 on are in their order.
abbrev pub one_bits : ℕ
one_bits = 0x3ff0000000000000

abbrev pub threshold_bits : ℕ
threshold_bits = 0x3feccccccccccccd

abbrev pub minus_zero_bits : ℕ
minus_zero_bits = 0x8000000000000000

-- A confidence in [0,1], as the bits of a double.
abbrev pub value_confidence : Value → Option ℕ
value_confidence (double f) = if leb f one_bits || nat_eq f minus_zero_bits then some f else none
value_confidence (int (pos n)) =
    if nat_eq n 0 then some 0 else if nat_eq n 1 then some one_bits else none
value_confidence _ = none

unfoldable pub observation_confidence : List KeyValue → Option ℕ
observation_confidence [] = none
observation_confidence (kv ∷ attrs) =
    if kv.key == codes "confidence" then value_confidence kv.value else observation_confidence attrs

-- Not below the threshold of package canonical.
abbrev pub is_believed : Option ℕ → Bool
is_believed none = false
is_believed (some f) = leb threshold_bits f && leb f one_bits

unfoldable pub identity_value_map : List KeyValue → Dict Str Value → Dict Str Value
identity_value_map [] m = m
identity_value_map (kv ∷ kvs) m = identity_value_map kvs (put m kv.key kv.value)

-- Both values of the differing key are strings: the target's is the alias.
unfoldable pub claim_of : Str → Option Value → Option Value → Option AliasClaimKey
claim_of key (some (string f)) (some (string t)) =
    some (record { alias = record { attribute_key = key; alias_value = t }; canonical_value = f })
claim_of key _ _ = none

unfoldable pub claim_at : Dict Str Value → Dict Str Value → Option (Str × ℕ) → Option AliasClaimKey
unfolding claim_of
claim_at from to none = none
claim_at from to (some (key, diffs)) =
    if nat_eq diffs 1 then claim_of key (get from key) (get to key) else none

module _ ⦃runtime : Runtime⦄ where
  -- The loop over the source's keys: the last key that differs and how many do.
  unfoldable pub count_diffs : Dict Str Value → Dict Str Value → Str × ℕ → Option (Str × ℕ)
  count_diffs [] to acc = some acc
  count_diffs ((k, fv) ∷ from) to (key, diffs) = elim (get to k) [
    | none ↦ none
    | some tv ↦
        count_diffs from to (if canonical fv == canonical tv then (key, diffs) else (k, diffs + 1))
  ]

  unfoldable pub alias_claim_from_observation : RelationObservation → Option AliasClaimKey
  unfolding claim_at count_diffs identity_value_map observation_confidence
  alias_claim_from_observation obs =
      let from = identity_value_map obs.from.identity [] in
      let to = identity_value_map obs.to.identity [] in
      if not (is_believed (observation_confidence obs.attributes))
      then none
      else if not (obs.from.type == obs.to.type)
      then none
      else if not (nat_eq (length from) (length to))
      then none
      else claim_at from to (count_diffs from to ([], 0))

abbrev pub alias_slack_factor : ℕ
alias_slack_factor = 2

-- now.Add(interval * aliasSlackFactor): the product is an int64, negative from 2 ^ 63 on.
unfoldable pub add_slack : Time → Duration → Time
add_slack now interval =
    let product = (interval * alias_slack_factor) % 2 ^ 64 in
    if ltb product (2 ^ 63) then now + product else now - (2 ^ 64 - product)

-- `none` where the declared cycle may not be believed; 0 never expires.
unfoldable pub alias_deadline : Time → RelationObservation → Option Time
unfolding add_slack
alias_deadline now obs =
    if ltb 0 obs.interval
    then (if ltb max_plausible_liveness_promise obs.interval
        then none
        else some (add_slack now obs.interval))
    else if ltb 0 obs.source_interval
    then (if ltb max_plausible_liveness_promise obs.source_interval
        then none
        else some (add_slack now obs.source_interval))
    else some 0
