-- ===== src/Change/Diff.antt =====
-- diffAttributes, canonMap and the state keys of internal/change/engine.go.
use toise.Common.{
  ◌↔◌, str_eq_refl, ◌≡◌, refl, Bool, true, false, ◌&&◌, ◌||◌, not, none, some, List, [], ◌∷◌, ◌++◌,
  arith, if◌then◌else◌, any, Str, codes, str_Eq, str_eq_iff, ◌==◌,
}
use toise.Common.Dict.{Distinct, put-Distinct, Dict, get, put, has}
use toise.Model.Value.{Runtime, KeyValue, canonical}
use toise.Model.Entity.{
  ChangeType, entity_unchanged, entity_state_changed, entity_attribute_updated,
}

unfoldable pub state_keys : Dict Str (Unit {0})
state_keys =
    (codes "oper_state", tt)
    ∷ (codes "admin_state", tt)
    ∷ (codes "status", tt)
    ∷ (codes "replication.role", tt)
    ∷ (codes "read_only", tt)
    ∷ (codes "hw.state", tt)
    ∷ (codes "ha.role", tt)
    ∷ []

-- The keys of the first map whose value the second lacks or has otherwise.
unfoldable pub differing : Dict Str Str → Dict Str Str → List Str
differing [] om = []
differing ((k, nv) ∷ nm) om =
    let rest = differing nm om in
    elim (get om k) [ none ↦ k ∷ rest | some ov ↦ if ov == nv then rest else k ∷ rest ]

-- The keys of the first map that the second lacks.
unfoldable pub missing : Dict Str Str → Dict Str Str → List Str
missing [] nm = []
missing ((k, ov) ∷ om) nm = let rest = missing om nm in if has nm k then rest else k ∷ rest

module _ ⦃runtime : Runtime⦄ where
  unfoldable pub canon_map : List KeyValue → Dict Str Str → Dict Str Str
  canon_map [] m = m
  canon_map (kv ∷ kvs) m = canon_map kvs (put m kv.key (canonical kv.value))

  unfoldable pub diff_attributes : List KeyValue → List KeyValue → List Str × Bool
  unfolding canon_map differing missing
  diff_attributes old new =
      let om = canon_map old [] in
      let nm = canon_map new [] in
      let changed = differing nm om ++ missing om nm in
      (changed, any (λ k. has state_keys k) changed)

-- The classification of a known entity by what its attributes changed.
unfoldable pub classify : List Str × Bool → ChangeType
classify ([], state_changed) = entity_unchanged
classify (k ∷ changed, true) = entity_state_changed
classify (k ∷ changed, false) = entity_attribute_updated

abbrev pub lists : List Str → Str → Bool
lists [] k = false
lists (j ∷ ks) k = j == k || lists ks k

lists-append : (xs ys : List Str) (k : Str) → lists (xs ++ ys) k ≡ (lists xs k || lists ys k)
lists-append [] ys k = ground arith
lists-append (x ∷ xs) ys k = ground (arith, lists-append xs ys k)

-- Two maps give a key the same value, or both lack it.
abbrev pub same_at : Dict Str Str → Dict Str Str → Str → Bool
same_at om nm k = elim (get om k) [
  | none ↦ not (has nm k)
  | some ov ↦ elim (get nm k) [ none ↦ false | some nv ↦ ov == nv ]
]

lists-differing :
    (nm om : Dict Str Str) (k : Str)
    → Distinct nm
    → lists (differing nm om) k ≡ elim (get nm k) [
      | none ↦ false
      | some nv ↦ elim (get om k) [ none ↦ true | some ov ↦ not (ov == nv) ]
    ]
unfolding differing get
lists-differing [] om k d = refl
lists-differing ((j, v) ∷ nm) om k d = ground (arith, lists-differing nm om k d.1, str_eq_iff j k)

lists-missing :
    (om nm : Dict Str Str) (k : Str) → lists (missing om nm) k ≡ (has om k && not (has nm k))
unfolding missing get
lists-missing [] nm k = refl
lists-missing ((j, v) ∷ om) nm k = ground (arith, lists-missing om nm k, str_eq_iff j k)

module _ ⦃runtime : Runtime⦄ where
  canon_map-Distinct :
      (kvs : List KeyValue) (m : Dict Str Str) → Distinct m → Distinct (canon_map kvs m)
  unfolding canon_map
  canon_map-Distinct [] m d = d
  canon_map-Distinct (kv ∷ kvs) m d =
      canon_map-Distinct kvs (put m kv.key (canonical kv.value))
        (put-Distinct m kv.key (canonical kv.value) d)

  -- The changed keys are exactly those at which the two attribute lists differ in their canonical
  -- values, either way, and the state flag tells whether a state key is one of them.
  pub diff_attributes_lem :
      (old new : List KeyValue) (k : Str)
      → (lists (diff_attributes old new).0 k
          ≡ not (same_at (canon_map old []) (canon_map new []) k))
        × ((diff_attributes old new).1 ≡ any (λ j. has state_keys j) (diff_attributes old new).0)
  unfolding diff_attributes
  diff_attributes_lem old new k =
      let om = canon_map old [] in
      let nm = canon_map new [] in
      (
        ground (
          arith,
          lists-append (differing nm om) (missing om nm) k,
          lists-differing nm om k (canon_map-Distinct new [] tt),
          lists-missing om nm k,
        ),
        refl,
      )

  no_key : (ks : List Str) → ((k : Str) → lists ks k ≡ false) → ks ≡ []
  no_key [] h = refl
  no_key (k ∷ ks) h = ground (arith, h k, str_eq_refl k)

  -- An observation is classified as unchanged exactly when its attributes have the stored canonical
  -- values, key by key.
  pub classify-unchanged :
      (old new : List KeyValue)
      → (classify (diff_attributes old new) ≡ entity_unchanged)
        ↔ ((k : Str) → same_at (canon_map old []) (canon_map new []) k ≡ true)
  unfolding classify
  classify-unchanged old new = (
    λ h k. ground (arith, (diff_attributes_lem old new k).0, unchanged (diff_attributes old new) h),
    λ h. rw (
      no_key (diff_attributes old new).0
          (λ k. ground (arith, (diff_attributes_lem old new k).0, h k)),
      classify,
    ),
  )
    where
      unchanged : (d : List Str × Bool) → classify d ≡ entity_unchanged → d.0 ≡ []
      unchanged ([], b) h = refl
      unchanged (k ∷ ks, true) h = cc
      unchanged (k ∷ ks, false) h = cc
