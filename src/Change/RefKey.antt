-- ===== src/Change/RefKey.antt =====
-- refKey and splitRefKey of internal/change/engine.go: a producer and a collection method as one
-- key of the liveness maps.
use toise.Common.{
  ℕ, suc, ◌+◌, ◌≤◌, ◌<◌, ◌≡◌, refl, ap, ◌∙◌, Bool, true, false, ◌&&◌, Option, none, some, [], ◌∷◌,
  ◌++◌, arith, if◌then◌else◌, ltb, nat_eq, length, take, drop, Str, str_Eq, index_byte,
  index_byte-append, take-length_append, drop-length_append, length-append, leb,
}
use toise.Common.Decimal.{ℤ, pos, negsuc, itoa, atoi, atoi-itoa, itoa-Avoids, max_int}

-- The producer is empty, or does not begin with the marker.
abbrev plain : Str → Bool
plain [] = true
plain (c ∷ s) = if nat_eq c 0 then false else true

abbrev empty : Str → Bool
empty [] = true
empty (c ∷ s) = false

unfoldable pub ref_key : Str → Str → Str
ref_key producer scope =
    if empty scope && plain producer
    then producer
    else 0 ∷ (itoa (length producer) ++ 0 ∷ (producer ++ scope))

-- The end of the checks: `over` is `1 + end + 1 + n`, which wraps to a negative int above `max_int`
-- and then is not greater than the key's length. `none` is the panic of a slice out of range.
cut : Str → Str → ℕ → Option ℤ → Option (Str × Str)
cut key body end none = some (key, [])
cut key body end (some (negsuc n)) = some (key, [])
cut key body end (some (pos n)) =
    let over = 1 + end + 1 + n in
    if ltb (length key) over && leb over max_int
    then some (key, [])
    else if ltb (length body) n
    then none
    else some (take n body, drop n body)

-- `rest` is the key without its leading marker, `end` the place of the next one in it.
split_marked : Str → Str → Option ℕ → Option (Str × Str)
unfolding cut
split_marked key rest none = some (key, [])
split_marked key rest (some end) = cut key (drop (suc end) rest) end (atoi (take end rest))

unfoldable pub split_ref_key : Str → Option (Str × Str)
unfolding split_marked
split_ref_key [] = some ([], [])
split_ref_key (c ∷ rest) =
    if nat_eq c 0 then split_marked (c ∷ rest) rest (index_byte rest 0) else some (c ∷ rest, [])

drop_head : (xs ys : Str) (y : ℕ) → drop (suc (length xs)) (xs ++ y ∷ ys) ≡ ys
drop_head [] ys y = refl
drop_head (x ∷ xs) ys y = drop_head xs ys y

-- A key with the marker and a length reaches the checks with that length.
split-marked :
    (n : ℕ) (body : Str)
    → n ≤ max_int
    → split_ref_key (0 ∷ itoa n ++ 0 ∷ body)
      ≡ cut (0 ∷ itoa n ++ 0 ∷ body) body (length (itoa n)) (some (pos n))
unfolding split_ref_key
split-marked n body h = rw (
  index_byte-append 0 (itoa n) body (itoa-Avoids n),
  split_marked,
  drop_head (itoa n) body 0,
  take-length_append (itoa n) (0 ∷ body),
  atoi-itoa n h,
)

length-key :
    (n : ℕ) (body : Str) → length (0 ∷ itoa n ++ 0 ∷ body) ≡ 2 + length (itoa n) + length body
length-key n body = omega (arith, length-append (itoa n) (0 ∷ body))

split-whole :
    (producer scope : Str)
    → length producer ≤ max_int
    → split_ref_key (0 ∷ (itoa (length producer) ++ 0 ∷ (producer ++ scope)))
      ≡ some (producer, scope)
unfolding split_ref_key
split-whole producer scope h =
    split-marked (length producer) (producer ++ scope) h
    ∙ ground (
      arith,
      length-key (length producer) (producer ++ scope),
      length-append producer scope,
      take-length_append producer scope,
      drop-length_append producer scope,
    )

-- What refKey writes, splitRefKey reads back, for every producer and collection method that an
-- int can measure.
pub split_ref_key-ref_key :
    (producer scope : Str)
    → length producer ≤ max_int
    → split_ref_key (ref_key producer scope) ≡ some (producer, scope)
unfolding ref_key split_ref_key
split_ref_key-ref_key [] [] h = refl
split_ref_key-ref_key [] (d ∷ scope) h = split-whole [] (d ∷ scope) h
split_ref_key-ref_key (c ∷ producer) [] h = ground (arith, split-whole (c ∷ producer) [] h)
split_ref_key-ref_key (c ∷ producer) (d ∷ scope) h = split-whole (c ∷ producer) (d ∷ scope) h

-- Two speakers whose producers an int can measure have one key only if they are one speaker.
pub ref_key-injective :
    (producer scope producer' scope' : Str)
    → length producer ≤ max_int
    → length producer' ≤ max_int
    → ref_key producer scope ≡ ref_key producer' scope'
    → (producer ≡ producer') × (scope ≡ scope')
ref_key-injective producer scope producer' scope' h h' e = ground (
  arith,
  split_ref_key-ref_key producer scope h,
  split_ref_key-ref_key producer' scope' h',
  ap split_ref_key e,
)

cut-overflow :
    (key body : Str) (end n : ℕ)
    → max_int < 1 + end + 1 + n
    → length body < n
    → cut key body end (some (pos n)) ≡ none
unfolding cut
cut-overflow key body end n h k = ground arith

-- A key whose length field is the largest int, with a shorter body, passes the bounds check by
-- wrapping, and the slice that follows is out of range.
pub split_ref_key-overflow :
    (body : Str) → length body < max_int → split_ref_key (0 ∷ itoa max_int ++ 0 ∷ body) ≡ none
unfolding split_ref_key
split_ref_key-overflow body h =
    split-marked max_int body (omega arith)
    ∙ cut-overflow (0 ∷ (itoa max_int ++ 0 ∷ body)) body (length (itoa max_int)) max_int
        (omega arith) h

-- The speaker of a key, for the callers: a panic, which no key of refKey causes, ends the process.
unfoldable pub speaker : Str → Str × Str
unfolding split_ref_key
speaker key = elim (split_ref_key key) [ none ↦ (key, []) | some s ↦ s ]

pub speaker-ref_key :
    (producer scope : Str)
    → length producer ≤ max_int
    → speaker (ref_key producer scope) ≡ (producer, scope)
unfolding speaker
speaker-ref_key producer scope h = ground (arith, split_ref_key-ref_key producer scope h)
