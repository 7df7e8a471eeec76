-- ===== src/Common/Dict.antt =====
-- Go's maps as association lists. A map is read through `get`; a `range` loop walks the entries,
-- in an order that the program never relies on.
use Prim.Native.Nat.{◌+◌}
use mathlib.Core.Path.{◌≡◌, refl}
use mathlib.Core.Bool.{Bool, false}
use mathlib.Core.Option.{Option, none, some}
use mathlib.Core.List.{List, [], ◌∷◌}
use native.Mathlib.Omega.{arith}
use toise.Common.Tests.{if◌then◌else◌, is_some}
use toise.Common.Lists.{length, keep}
use toise.Common.Equal.{Eq, ◌==◌}

abbrev pub Dict {ℓ κ} : Type ℓ → Type κ → Type (ℓ ⊔ κ)
Dict K V = List (K × V)

module _ {ℓ κ} {K : Type ℓ} {V : Type κ} ⦃e : Eq K⦄ where
  -- v, ok := d[k]
  unfoldable pub get : Dict K V → K → Option V
  get [] k = none
  get ((j, v) ∷ d) k = if j == k then some v else get d k

  -- delete(d, k)
  unfoldable pub remove : Dict K V → K → Dict K V
  remove [] k = []
  remove ((j, v) ∷ d) k = let rest = remove d k in if j == k then rest else (j, v) ∷ rest

  -- d[k] = v
  unfoldable pub put : Dict K V → K → V → Dict K V
  unfolding remove
  put d k v = (k, v) ∷ remove d k

  -- _, ok := d[k]
  abbrev pub has : Dict K V → K → Bool
  has d k = is_some (get d k)

  pub get-empty : (k : K) → get [] k ≡ none
  unfolding get
  get-empty k = refl

  pub get-remove :
      (d : Dict K V) (k j : K) → get (remove d k) j ≡ (if k == j then none else get d j)
  unfolding get remove
  get-remove [] k j = ground arith
  get-remove ((i, v) ∷ d) k j =
      ground (arith, get-remove d k j, e.decides i k, e.decides i j, e.decides k j)

  pub get-put :
      (d : Dict K V) (k j : K) (v : V) → get (put d k v) j ≡ (if k == j then some v else get d j)
  unfolding get put
  get-put d k j v = ground (arith, get-remove d k j)

module _ {ℓ κ} {K : Type ℓ} {V : Type κ} ⦃e : Eq K⦄ where
  -- No key has two entries, as in every map.
  abbrev pub Distinct : Dict K V → Type 0
  Distinct [] = Unit
  Distinct ((k, v) ∷ d) = (has d k ≡ false) × Distinct d

  pub remove-Distinct : (d : Dict K V) (k : K) → Distinct d → Distinct (remove d k)
  unfolding remove
  remove-Distinct [] k h = tt
  remove-Distinct ((j, v) ∷ d) k h = ground (arith, remove-Distinct d k h.1, get-remove d k j)

  pub put-Distinct : (d : Dict K V) (k : K) (v : V) → Distinct d → Distinct (put d k v)
  unfolding put
  put-Distinct d k v h =
      ground (arith, remove-Distinct d k h, get-remove d k k, (e.decides k k).1 refl)

  pub remove_absent : (d : Dict K V) (k : K) → has d k ≡ false → remove d k ≡ d
  unfolding get remove
  remove_absent [] k h = refl
  remove_absent ((j, v) ∷ d) k h = ground (arith, remove_absent d k)

  pub length-remove :
      (d : Dict K V) (k : K)
      → Distinct d
      → length (remove d k) + (if has d k then 1 else 0) ≡ length d
  unfolding get remove
  length-remove [] k h = omega arith
  length-remove ((j, v) ∷ d) k h =
      ground (arith, length-remove d k h.1, e.decides j k, remove_absent d k)

  pub length-put :
      (d : Dict K V) (k : K) (v : V)
      → Distinct d
      → length (put d k v) ≡ length d + (if has d k then 0 else 1)
  unfolding put
  length-put d k v h = ground (arith, length-remove d k h)

module _ {ℓ κ} {K : Type ℓ} {V : Type κ} ⦃e : Eq K⦄ (p : K × V → Bool) where
  pub get-keep :
      (d : Dict K V) (k : K)
      → Distinct d
      → get (keep p d) k
        ≡ elim (get d k) [ none ↦ none | some v ↦ if p (k, v) then some v else none ]
  unfolding get
  get-keep [] k h = refl
  get-keep ((j, v) ∷ d) k h = ground (arith, get-keep d k h.1, e.decides j k)

  pub keep-Distinct : (d : Dict K V) → Distinct d → Distinct (keep p d)
  keep-Distinct [] h = tt
  keep-Distinct ((j, v) ∷ d) h = ground (arith, keep-Distinct d h.1, get-keep d j h.1)

module _ {ℓ κ} {K : Type ℓ} {V : Type κ} ⦃e : Eq K⦄ where
  pub get-put_same : (d : Dict K V) (k : K) (v : V) → get (put d k v) k ≡ some v
  get-put_same d k v = ground (arith, get-put d k k v, e.decides k k)

  pub get-remove_same : (d : Dict K V) (k : K) → get (remove d k) k ≡ none
  get-remove_same d k = ground (arith, get-remove d k k, e.decides k k)

  pub get-put_other :
      (d : Dict K V) (k j : K) (v w : V)
      → has d k ≡ false
      → get d j ≡ some w
      → get (put d k v) j ≡ some w
  get-put_other d k j v w h g = ground (arith, get-put d k j v, e.decides k j)

module _ {ℓ κ} {K : Type ℓ} {V : Type κ} ⦃e : Eq K⦄ where
  pub get-head : (d : Dict K V) (k : K) (v : V) → get ((k, v) ∷ d) k ≡ some v
  unfolding get
  get-head d k v = ground (arith, e.decides k k)

  pub get-tail :
      (d : Dict K V) (k j : K) (v w : V)
      → Distinct ((j, v) ∷ d)
      → get d k ≡ some w
      → get ((j, v) ∷ d) k ≡ some w
  unfolding get
  get-tail d k j v w h g = ground (arith, e.decides j k)

pub ruleset dict_laws = (get-empty, get-remove, get-put)
