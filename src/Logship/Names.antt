-- ===== src/Logship/Names.antt =====
-- The segment names of internal/logship/shipper.go: a name is parsed to the range it was made of.
use toise.Common.{
  ℕ, zero, suc, ◌+◌, ◌-◌, ◌*◌, ◌/◌, ◌%◌, ◌^◌, ◌<◌, true, false, ◌≡◌, refl, sym, ap, ◌∙◌, none, some,
  [], ◌∷◌, ◌++◌, arith, nat_eq, length, drop, Str, str_eq_refl, str_Eq, index_byte-append, Avoids,
  append_assoc, length-append, take-length_append, drop-length_append,
}
use native.Mathlib.Nat.{pow-suc, div-add-mod', mod-lt, div-lt_iff_lt-mul}
use toise.Logship.{
  both, with_digit, hex_digit, hex, segment_name, segment_extension, hex_value, parse_digits,
  parse_hex, fits_u64, after_last, base_of, has_suffix, trim_suffix, parse_base, parse_parts,
  parse_segment_name, is_segment, has_prefix,
}

hex_value-digit : (d : ℕ) → d < 16 → hex_value (hex_digit d) ≡ some d
hex_value-digit d h = ground arith

hex_digit-range : (d c : ℕ) → d < 16 → c < 48 → nat_eq (hex_digit d) c ≡ false
hex_digit-range d c h k = ground arith

pow16 : (k : ℕ) → 16 ^ suc k ≡ 16 * 16 ^ k
pow16 k = pow-suc 16 k ∙ omega arith

power_pos : (k : ℕ) → 0 < 16 ^ k
power_pos zero = omega arith
power_pos (suc k) = omega (arith, pow16 k, power_pos k)

quotient : (k n : ℕ) → n < 16 * 16 ^ k → n / 16 ^ k < 16
quotient k n h =
    (div-lt_iff_lt-mul {k = 16 ^ k} {x = n} {y = 16} (power_pos k)).1 (omega (arith, h))

remainder : (k n : ℕ) → n % 16 ^ k < 16 ^ k
remainder k n = mod-lt n (power_pos k)

length-hex : (k n : ℕ) → length (hex k n) ≡ k
unfolding hex
length-hex zero n = refl
length-hex (suc k) n = ap suc (length-hex k (n % 16 ^ k))

shifted : (acc q r n p : ℕ) → q * p + r ≡ n → (acc * 16 + q) * p + r ≡ acc * (p * 16) + n
shifted acc q r n p e = grind arith

-- Sixteen digits read as the number they were written from.
parse_digits-hex : (k n acc : ℕ) → n < 16 ^ k → parse_digits acc (hex k n) ≡ some (acc * 16 ^ k + n)
unfolding parse_digits hex
parse_digits-hex zero n acc h = ap some (omega arith)
parse_digits-hex (suc k) n acc h =
    let p = 16 ^ k in
    let lt : n < 16 * p = omega (arith, h, pow16 k) in
    ap (λ o. with_digit o (λ d. parse_digits (acc * 16 + d) (hex k (n % p))))
      (hex_value-digit (n / p) (quotient k n lt))
    ∙ parse_digits-hex k (n % p) (acc * 16 + n / p) (remainder k n)
    ∙ ap some (
        shifted acc (n / p) (n % p) n p (div-add-mod' n p)
        ∙ ap (λ q. acc * q + n) (sym (pow-suc 16 k)))

hex-Avoids : (c k n : ℕ) → c < 48 → n < 16 ^ k → Avoids c (hex k n)
unfolding hex
hex-Avoids c zero n l h = tt
hex-Avoids c (suc k) n l h =
    let p = 16 ^ k in
    let lt : n < 16 * p = omega (arith, h, pow16 k) in
    (hex_digit-range (n / p) c (quotient k n lt) l, hex-Avoids c k (n % p) l (remainder k n))

parse_hex-digits : (m : ℕ) (s : Str) → length s ≡ suc m → parse_hex s ≡ fits_u64 (parse_digits 0 s)
unfolding parse_hex
parse_hex-digits m [] h = absurd (omega arith)
parse_hex-digits m (c ∷ s) h = refl

fits_u64_lem : (n : ℕ) → n < 2 ^ 64 → fits_u64 (some n) ≡ some n
fits_u64_lem n h = ground arith

parse_hex-hex : (n : ℕ) → n < 2 ^ 64 → parse_hex (hex 16 n) ≡ some n
parse_hex-hex n h =
    let read : parse_digits 0 (hex 16 n) ≡ some n =
      parse_digits-hex 16 n 0 (omega (arith, h)) ∙ ap some (omega arith) in
    parse_hex-digits 15 (hex 16 n) (length-hex 16 n) ∙ ap fits_u64 read ∙ fits_u64_lem n h

-- The last `c` is found behind a prefix of any kind when what follows avoids it.
after_last-Avoids : (c : ℕ) (s : Str) → Avoids c s → after_last c s ≡ none
unfolding after_last
after_last-Avoids c [] h = refl
after_last-Avoids c (b ∷ s) h = rw (after_last-Avoids c s h.1, h.0) refl

after_last-append : (c : ℕ) (s t : Str) → Avoids c t → after_last c (s ++ c ∷ t) ≡ some t
unfolding after_last
after_last-append c [] t h = rw (after_last-Avoids c t h) (ground arith)
after_last-append c (b ∷ s) t h = rw (after_last-append c s t h) refl

Avoids-append : (c : ℕ) (s t : Str) → Avoids c s → Avoids c t → Avoids c (s ++ t)
Avoids-append c [] t h k = k
Avoids-append c (b ∷ s) t h k = (h.0, Avoids-append c s t h.1 k)

pub has_suffix-append : (s t : Str) → has_suffix (s ++ t) t ≡ true
has_suffix-append s t =
    let n : length (s ++ t) - length t ≡ length s = omega (arith, length-append s t) in
    rw (n, drop-length_append s t, str_eq_refl t) (ground (arith, length-append s t))

trim_suffix-append : (s t : Str) → trim_suffix (s ++ t) t ≡ s
trim_suffix-append s t =
    let n : length (s ++ t) - length t ≡ length s = omega (arith, length-append s t) in
    rw (has_suffix-append s t, n, take-length_append s t) refl

has_prefix-append : (p s : Str) → has_prefix (p ++ s) p ≡ true
has_prefix-append p s = rw (take-length_append p s) (str_eq_refl p)

drop-past : (s : Str) (c : ℕ) (t : Str) → drop (suc (length s)) (s ++ c ∷ t) ≡ t
drop-past [] c t = refl
drop-past (b ∷ s) c t = drop-past s c t

-- The name without its directory and its extension.
abbrev range : ℕ → ℕ → Str
range from to = hex 16 from ++ 45 ∷ hex 16 to

parse_base-range :
    (from to : ℕ) → from < 2 ^ 64 → to < 2 ^ 64 → parse_base (range from to) ≡ some (from, to)
parse_base-range from to h k =
    let left = hex 16 from in
    let right = hex 16 to in
    let dash =
      index_byte-append 45 left right (hex-Avoids 45 16 from (omega arith) (omega (arith, h))) in
    ap (parse_parts (left ++ 45 ∷ right)) dash
    ∙ ap (λ l. both (parse_hex l) (parse_hex (drop (suc (length left)) (left ++ 45 ∷ right))))
        (take-length_append left (45 ∷ right))
    ∙ ap (λ r. both (parse_hex left) (parse_hex r)) (drop-past left 45 right)
    ∙ ap (λ o. both o (parse_hex right)) (parse_hex-hex from h)
    ∙ ap (both (some from)) (parse_hex-hex to k)

range-Avoids : (from to : ℕ) → from < 2 ^ 64 → to < 2 ^ 64 → Avoids 47 (range from to)
range-Avoids from to h k =
    Avoids-append 47 (hex 16 from) (45 ∷ hex 16 to)
      (hex-Avoids 47 16 from (omega arith) (omega (arith, h)))
      (refl, hex-Avoids 47 16 to (omega arith) (omega (arith, k)))

pub segment_name_lem :
    (tenant : Str) (from to : ℕ)
    → segment_name tenant from to ≡ tenant ++ 47 ∷ (range from to ++ segment_extension)
unfolding segment_name
segment_name_lem tenant from to =
    ap (λ l. tenant ++ 47 ∷ l) (sym (append_assoc (hex 16 from) (45 ∷ hex 16 to) segment_extension))

-- A name is parsed to the range that it was made of.
pub parse_segment_name-segment_name :
    (tenant : Str) (from to : ℕ)
    → from < 2 ^ 64
    → to < 2 ^ 64
    → parse_segment_name (segment_name tenant from to) ≡ some (from, to)
unfolding parse_segment_name
parse_segment_name-segment_name tenant from to h k =
    let file = range from to ++ segment_extension in
    let avoids : Avoids 47 file =
      Avoids-append 47 (range from to) segment_extension (range-Avoids from to h k)
        (refl, (refl, (refl, (refl, tt)))) in
    ap parse_segment_name (segment_name_lem tenant from to)
    ∙ ap (λ o. parse_base (trim_suffix (base_of o (tenant ++ 47 ∷ file)) segment_extension))
        (after_last-append 47 tenant file avoids)
    ∙ ap parse_base (trim_suffix-append (range from to) segment_extension)
    ∙ parse_base-range from to h k

pub is_segment-segment_name :
    (tenant : Str) (from to : ℕ) → is_segment tenant (segment_name tenant from to) ≡ true
is_segment-segment_name tenant from to =
    let file = range from to ++ segment_extension in
    let front : has_prefix (tenant ++ 47 ∷ file) (tenant ++ 47 ∷ []) ≡ true =
      ap (λ l. has_prefix l (tenant ++ 47 ∷ [])) (sym (append_assoc tenant (47 ∷ []) file))
      ∙ has_prefix-append (tenant ++ 47 ∷ []) file in
    let back : has_suffix (tenant ++ 47 ∷ file) segment_extension ≡ true =
      ap (λ l. has_suffix l segment_extension)
        (sym (append_assoc tenant (47 ∷ range from to) segment_extension))
      ∙ has_suffix-append (tenant ++ 47 ∷ range from to) segment_extension in
    ap (is_segment tenant) (segment_name_lem tenant from to) ∙ ground (arith, front, back)
