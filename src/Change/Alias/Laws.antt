-- ===== src/Change/Alias/Laws.antt =====
-- The alias index of internal/change/alias.go: its two maps agree, and what it resolves is
-- unambiguous.
use toise.Common.{
  is_empty, ◌<◌, ◌+◌, ◌*◌, ◌≤◌, ◌≡◌, refl, inl, inr, true, false, ◌&&◌, none, some, [], ◌∷◌, arith,
  if◌then◌else◌, Str, str_Eq, str_eq_iff, ◌==◌, length, Bool-cases, str_eq,
}
use toise.Common.Dict.{
  Dict, get, put, remove, has, get-put, get-remove, get-empty, Distinct, put-Distinct,
  remove-Distinct,
}
use toise.Model.Event.{Time}
use toise.Projection.Graph.{Set}
use toise.Change.State.{LiveRef, Speakers, RelationObservation}
use toise.Change.Liveness.{drop_lapsed, max_plausible_liveness_promise}
use toise.Change.Alias.{
  AliasKey, AliasClaimKey, alias_Eq, claim_Eq, claim_eq, alias_eq_iff, claim_eq_iff,
  IdentityAliasIndex, new_identity_alias_index, candidates, claim_speakers, record_claim,
  only_candidate, resolve, retract, sweep_claim, sweep_claims, sweep_aliases, add_slack,
  alias_deadline,
}

abbrev claim : AliasKey → Str → AliasClaimKey
claim a v = record { alias = a; canonical_value = v }

-- A value is a candidate for an alias exactly when some speaker claims it, and no alias has a
-- candidate twice.
pub record Agrees (idx : IdentityAliasIndex) : Type 0 where
  pub same :
      (a : AliasKey) (v : Str) → has (candidates idx.by_alias a) v ≡ has idx.speakers (claim a v)
  pub once : (a : AliasKey) → Distinct (candidates idx.by_alias a)

pub new-Agrees : Agrees new_identity_alias_index
unfolding get
new-Agrees = record { same = λ a v. refl; once = λ a. tt }

-- Recording a claim keeps two maps that agree in agreement.
pub record_claim-Agrees :
    (idx : IdentityAliasIndex) (c : AliasClaimKey) (speaker : Str) (ref : LiveRef)
    → Agrees idx
    → Agrees (record_claim idx c speaker ref).0
unfolding record_claim claim_eq
record_claim-Agrees idx c speaker ref g =
    let before = candidates idx.by_alias c.alias in
    let added = put before c.canonical_value tt in
    record {
      same = λ a v. ground (
        arith,
        get-put idx.by_alias c.alias a added,
        get-put before c.canonical_value v tt,
        get-put idx.speakers c (claim a v) (put (claim_speakers idx.speakers c) speaker ref),
        g.same a v,
        alias_eq_iff c.alias a,
      );
      once = λ a. ground (
        arith,
        get-put idx.by_alias c.alias a added,
        put-Distinct before c.canonical_value tt (g.once c.alias),
        g.once a,
      );
    }

empty_has : (s : Set) (v : Str) → is_empty s ≡ true → has s v ≡ false
unfolding get
empty_has [] v h = refl
empty_has (x ∷ s) v h = cc

has-retract :
    (by_alias : Dict AliasKey Set) (c : AliasClaimKey) (a : AliasKey) (v : Str)
    → has (candidates (retract by_alias c) a) v
      ≡ (if c.alias == a && c.canonical_value == v then false else has (candidates by_alias a) v)
unfolding retract
has-retract by_alias c a v =
    let left = remove (candidates by_alias c.alias) c.canonical_value in
    elim (Bool-cases (is_empty left)) [
      | inl e ↦ rw e (
          ground (
            arith,
            get-remove by_alias c.alias a,
            get-remove (candidates by_alias c.alias) c.canonical_value v,
            empty_has left v e,
            get-empty {V = Unit {0}} v,
            alias_eq_iff c.alias a,
          ))
      | inr e ↦ rw e (
          ground (
            arith,
            get-put by_alias c.alias a left,
            get-remove (candidates by_alias c.alias) c.canonical_value v,
            alias_eq_iff c.alias a,
          ))
    ]

once-retract :
    (by_alias : Dict AliasKey Set) (c : AliasClaimKey) (a : AliasKey)
    → ((a : AliasKey) → Distinct (candidates by_alias a))
    → Distinct (candidates (retract by_alias c) a)
unfolding retract
once-retract by_alias c a h =
    let left = remove (candidates by_alias c.alias) c.canonical_value in
    let kept = remove-Distinct (candidates by_alias c.alias) c.canonical_value (h c.alias) in
    elim (Bool-cases (is_empty left)) [
      | inl e ↦ rw e (ground (arith, get-remove by_alias c.alias a, h a))
      | inr e ↦ rw e (ground (arith, get-put by_alias c.alias a left, kept, h a))
    ]

sweep_claim-Agrees :
    (now : Time) (idx : IdentityAliasIndex) (c : AliasClaimKey) (s : Speakers)
    → has idx.speakers c ≡ true
    → Agrees idx
    → Agrees (sweep_claim now idx c s)
unfolding sweep_claim claim_eq
sweep_claim-Agrees now idx c s h g = elim (Bool-cases (is_empty (drop_lapsed now s))) [
  | inl e ↦ rw e (record {
    same = λ a v.
        ground (
          arith,
          has-retract idx.by_alias c a v,
          get-remove idx.speakers c (claim a v),
          g.same a v,
        );
    once = λ a. once-retract idx.by_alias c a g.once;
  })
  | inr e ↦ rw e (record {
    same = λ a v. ground (
      arith,
      get-put idx.speakers c (claim a v) (drop_lapsed now s),
      g.same a v,
      claim_eq_iff c (claim a v),
    );
    once = g.once;
  })
]

has-sweep_claim :
    (now : Time) (idx : IdentityAliasIndex) (c j : AliasClaimKey) (s : Speakers)
    → claim_eq c j ≡ false
    → get (sweep_claim now idx c s).speakers j ≡ get idx.speakers j
unfolding sweep_claim
has-sweep_claim now idx c j s h =
    ground (arith, get-put idx.speakers c j (drop_lapsed now s), get-remove idx.speakers c j)

sweep_claims-Agrees :
    (now : Time) (claims : Dict AliasClaimKey Speakers) (idx : IdentityAliasIndex)
    → Distinct claims
    → ((c : AliasClaimKey) → has claims c ≡ true → has idx.speakers c ≡ true)
    → Agrees idx
    → Agrees (sweep_claims now claims idx)
unfolding sweep_claims
sweep_claims-Agrees now [] idx d h g = g
sweep_claims-Agrees now ((c, s) ∷ claims) idx d h g =
    sweep_claims-Agrees now claims (sweep_claim now idx c s) d.1
      (λ j p.
        unfold get in ground (arith, has-sweep_claim now idx c j s, h j, d.0, claim_eq_iff c j))
      (sweep_claim-Agrees now idx c s (unfold get in ground (arith, h c, claim_eq_iff c c)) g)

-- A sweep keeps two maps that agree in agreement, where each claim has one entry.
pub sweep_aliases-Agrees :
    (now : Time) (idx : IdentityAliasIndex)
    → Distinct idx.speakers
    → Agrees idx
    → Agrees (sweep_aliases now idx)
unfolding sweep_aliases
sweep_aliases-Agrees now idx d g = sweep_claims-Agrees now idx.speakers idx d (λ c p. p) g

only_candidate_lem :
    (s : Set) (v w : Str) → only_candidate s ≡ some v → (has s v ≡ true) × (has s w ≡ true → w ≡ v)
unfolding only_candidate get
only_candidate_lem [] v w h = cc
only_candidate_lem ((x, u) ∷ []) v w h = ground (arith, str_eq_iff x v, str_eq_iff x w)
only_candidate_lem ((x, u) ∷ y ∷ s) v w h = cc

-- Where the two maps agree, what an alias resolves to is the one value that is claimed for it.
pub resolve_lem :
    (idx : IdentityAliasIndex) (a : AliasKey) (v w : Str)
    → Agrees idx
    → resolve idx a ≡ some v
    → has idx.speakers (claim a w) ≡ str_eq v w
unfolding resolve
resolve_lem idx a v w g h =
    let only = only_candidate_lem (candidates idx.by_alias a) v w h in
    ground (arith, only, g.same a v, g.same a w, str_eq_iff v w)

second_candidate :
    (s : Set) (v w : Str)
    → only_candidate s ≡ some v
    → str_eq w v ≡ false
    → (only_candidate (put s w tt) ≡ none) × (length (put s w tt) ≡ 2) × (has s w ≡ false)
unfolding only_candidate get put
second_candidate [] v w h n = cc
second_candidate ((x, u) ∷ []) v w h n = ground (arith, str_eq_iff x w, str_eq_iff w v)
second_candidate ((x, u) ∷ y ∷ s) v w h n = cc

-- Where the two maps agree, a second value for an alias that resolves makes it ambiguous: it
-- resolves no more, and the claim is reported as new and as a conflict.
pub record_claim-conflict :
    (idx : IdentityAliasIndex) (c : AliasClaimKey) (v speaker : Str) (ref : LiveRef)
    → Agrees idx
    → resolve idx c.alias ≡ some v
    → str_eq c.canonical_value v ≡ false
    → (resolve (record_claim idx c speaker ref).0 c.alias ≡ none)
      × ((record_claim idx c speaker ref).1 ≡ true)
      × ((record_claim idx c speaker ref).2 ≡ true)
unfolding record_claim resolve
record_claim-conflict idx c v speaker ref g h n =
    let before = candidates idx.by_alias c.alias in
    let second = second_candidate before v c.canonical_value h n in
    ground (
      arith,
      second.0,
      second.1,
      second.2,
      g.same c.alias c.canonical_value,
      get-put idx.by_alias c.alias c.alias (put before c.canonical_value tt),
      alias_eq_iff c.alias c.alias,
    )

-- The slack never wraps. A plausible cycle gives twice that cycle from now, the edge's own before
-- its source's; an implausible one is refused; without a cycle the claim never expires.
pub alias_deadline-exact :
    (now : Time) (obs : RelationObservation)
    → (0 < obs.interval
        → obs.interval ≤ max_plausible_liveness_promise
        → alias_deadline now obs ≡ some (now + 2 * obs.interval))
      × (max_plausible_liveness_promise < obs.interval → alias_deadline now obs ≡ none)
      × (obs.interval ≡ 0
          → 0 < obs.source_interval
          → obs.source_interval ≤ max_plausible_liveness_promise
          → alias_deadline now obs ≡ some (now + 2 * obs.source_interval))
      × (obs.interval ≡ 0
          → max_plausible_liveness_promise < obs.source_interval
          → alias_deadline now obs ≡ none)
      × (obs.interval ≡ 0 → obs.source_interval ≡ 0 → alias_deadline now obs ≡ some 0)
unfolding alias_deadline add_slack
alias_deadline-exact now obs = (
  λ p q. ground arith,
  λ p. ground arith,
  λ p q r. ground arith,
  λ p q. ground arith,
  λ p q. ground arith,
)
