-- ===== src/Logship/Sorting.antt =====
-- The sort of a replay in internal/logship/shipper.go puts a chain in its order, however it is
-- listed.
use toise.Common.{
  ℕ, ◌<◌, ◌≤◌, ◌^◌, ◌≡◌, refl, sym, ap, subst, ◌∙◌, inl, List, [], ◌∷◌, ◌++◌, arith, ltb, inr,
  Bool-cases, Str, str_Eq,
}
use toise.Store.Snapshot.{Codec}
use toise.Logship.{first_of, begins, insert_name, sort_names}
use toise.Logship.Chain.{Segment, name_of, names_up, IsChain, Lists, parsed}

module _ ⦃codec : Codec⦄ where
  -- Every name of the list begins before a bound.
  abbrev Before : ℕ → List Str → Type 0
  Before n [] = Unit
  Before n (name ∷ names) = (begins name < n) × Before n names

  Before-join :
      (n : ℕ) (x : Str) (xs ys : List Str)
      → Before n (xs ++ ys)
      → begins x < n
      → Before n (xs ++ x ∷ ys)
  Before-join n x [] ys h k = (k, h)
  Before-join n x (z ∷ xs) ys h k = (h.0, Before-join n x xs ys h.1 k)

  Before-le : (m n : ℕ) (xs : List Str) → Before m xs → m ≤ n → Before n xs
  Before-le m n [] h k = tt
  Before-le m n (x ∷ xs) h k = (omega (arith, h.0, k), Before-le m n xs h.1 k)

  begins-name :
      (tenant : Str) (s : Segment)
      → s.from < s.to
      → s.to < 2 ^ 64
      → begins (name_of tenant s) ≡ s.from
  begins-name tenant s h k = ap first_of (parsed tenant s h k)

  Lists-Before :
      (tenant : Str) (chain : List Segment) (names : List Str) (end : ℕ)
      → IsChain chain end
      → Lists tenant names chain
      → Before end names
  Lists-Before tenant [] names end c k = subst (Before end) (sym k) tt
  Lists-Before tenant (s ∷ older) names end c (xs, ys, split, k) =
      let (top, less, fits, coded, rest) = c in
      let start = begins-name tenant s less fits in
      subst (Before end) (sym split) (
        Before-join end (name_of tenant s) xs ys
          (Before-le s.from end (xs ++ ys) (Lists-Before tenant older (xs ++ ys) s.from rest k)
            (omega (arith, top, less)))
          (omega (arith, start, top, less)))

  insert_name-Before :
      (n : ℕ) (x : Str) (names : List Str)
      → Before n names
      → begins x < n
      → Before n (insert_name x names)
  unfolding insert_name
  insert_name-Before n x [] h k = (k, tt)
  insert_name-Before n x (m ∷ names) h k = elim (Bool-cases (ltb (begins m) (begins x))) [
    | inl b ↦ rw b (h.0, insert_name-Before n x names h.1 k)
    | inr b ↦ rw b (k, h)
  ]

  sort_names-Before : (n : ℕ) (names : List Str) → Before n names → Before n (sort_names names)
  unfolding sort_names
  sort_names-Before n [] h = tt
  sort_names-Before n (x ∷ names) h =
      insert_name-Before n x (sort_names names) (sort_names-Before n names h.1) h.0

  insert_name-last :
      (n : Str) (names : List Str) → Before (begins n) names → insert_name n names ≡ names ++ n ∷ []
  unfolding insert_name
  insert_name-last n [] h = refl
  insert_name-last n (m ∷ names) h = ground (arith, insert_name-last n names h.1, h.0)

  insert_name-append :
      (n x : Str) (names : List Str)
      → begins n < begins x
      → insert_name n (names ++ x ∷ []) ≡ insert_name n names ++ x ∷ []
  unfolding insert_name
  insert_name-append n x [] h = ground (arith, h)
  insert_name-append n x (m ∷ names) h = ground (arith, insert_name-append n x names h)

  -- The name that begins last is sorted to the end, wherever it is listed.
  sort_names-latest :
      (x : Str) (xs ys : List Str)
      → Before (begins x) (xs ++ ys)
      → sort_names (xs ++ x ∷ ys) ≡ sort_names (xs ++ ys) ++ x ∷ []
  unfolding sort_names
  sort_names-latest x [] ys h =
      insert_name-last x (sort_names ys) (sort_names-Before (begins x) ys h)
  sort_names-latest x (z ∷ xs) ys h =
      ap (insert_name z) (sort_names-latest x xs ys h.1)
      ∙ insert_name-append z x (sort_names (xs ++ ys)) h.0

  pub sort_names-chain :
      (tenant : Str) (chain : List Segment) (names : List Str) (end : ℕ)
      → IsChain chain end
      → Lists tenant names chain
      → sort_names names ≡ names_up tenant chain
  unfolding sort_names
  sort_names-chain tenant [] names end c k = ap sort_names k
  sort_names-chain tenant (s ∷ older) names end c (xs, ys, split, k) =
      let (top, less, fits, coded, rest) = c in
      let before =
        subst (λ n. Before n (xs ++ ys)) (sym (begins-name tenant s less fits))
          (Lists-Before tenant older (xs ++ ys) s.from rest k) in
      ap sort_names split
      ∙ sort_names-latest (name_of tenant s) xs ys before
      ∙ ap (λ l. l ++ name_of tenant s ∷ [])
          (sort_names-chain tenant older (xs ++ ys) s.from rest k)
