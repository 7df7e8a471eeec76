-- ===== src/Canonical/Distinct.antt =====
-- Lists of identifiers without repeats, for the bound on the walk's rounds.
use toise.Common.{
  ◌<◌, ◌≤◌, ◌≡◌, refl, sym, subst, ◌∙◌, inl, inr, List, [], ◌∷◌, ◌++◌, arith, Str, str_Eq,
  str_eq_iff, str_eq, length, In, In-append, Bool-cases, if◌then◌else◌,
}

-- No item stands twice.
abbrev pub NoRepeat : List Str → Type 0
NoRepeat [] = Unit
NoRepeat (x ∷ xs) = (In x xs → ⊥) × NoRepeat xs

abbrev pub Within : List Str → List Str → Type 0
Within xs ys = (x : Str) → In x xs → In x ys

pub NoRepeat-snoc :
    (xs : List Str) (y : Str) → NoRepeat xs → (In y xs → ⊥) → NoRepeat (xs ++ y ∷ [])
NoRepeat-snoc [] y h n = (λ i. i, tt)
NoRepeat-snoc (x ∷ xs) y h n = (
  λ i. elim (In-append x xs (y ∷ []) i) [
    | inl j ↦ h.0 j
    | inr (inl q) ↦ n (inl (sym q))
    | inr (inr j) ↦ absurd j
  ],
  NoRepeat-snoc xs y h.1 (λ i. n (inr i)),
)

-- Leaving out the places of one item.
abbrev without : Str → List Str → List Str
without x [] = []
without x (y ∷ ys) = let rest = without x ys in if str_eq y x then rest else y ∷ rest

In-without : (x y : Str) (ys : List Str) → In y ys → (x ≡ y → ⊥) → In y (without x ys)
In-without x y [] i n = absurd i
In-without x y (z ∷ ys) (inl q) n = elim (Bool-cases (str_eq z x)) [
  | inl b ↦ absurd (n (sym ((str_eq_iff z x).0 b) ∙ q))
  | inr b ↦ rw b (inl q)
]
In-without x y (z ∷ ys) (inr i) n = elim (Bool-cases (str_eq z x)) [
  | inl b ↦ rw b (In-without x y ys i n)
  | inr b ↦ rw b (inr (In-without x y ys i n))
]

without-le : (x : Str) (ys : List Str) → length (without x ys) ≤ length ys
without-le x [] = omega arith
without-le x (y ∷ ys) = ground (arith, without-le x ys)

without-lt : (x : Str) (ys : List Str) → In x ys → length (without x ys) < length ys
without-lt x [] i = absurd i
without-lt x (y ∷ ys) (inl q) = ground (arith, without-le x ys, (str_eq_iff y x).1 q)
without-lt x (y ∷ ys) (inr i) = ground (arith, without-lt x ys i, without-le x ys)

-- A list without repeats is no longer than one that it lies within.
pub NoRepeat-length : (xs ys : List Str) → NoRepeat xs → Within xs ys → length xs ≤ length ys
NoRepeat-length [] ys h w = omega arith
NoRepeat-length (x ∷ xs) ys h w =
    let smaller =
      NoRepeat-length xs (without x ys) h.1
        (λ y i. In-without x y ys (w y (inr i)) (λ q. h.0 (subst (λ z. In z xs) (sym q) i))) in
    omega (arith, smaller, without-lt x ys (w x (inl refl)))
