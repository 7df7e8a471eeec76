-- ===== src/Tenant/Safe.antt =====
-- An accepted tenant id names a directory and nothing else, and is accepted as it stands.
use toise.Common.{
  nat_eq_iff, ◌-◌, ℕ, zero, suc, ◌≤◌, Bool, true, false, ◌||◌, ◌≡◌, ◌≢◌, refl, ap, ◌∙◌, subst, List,
  [], ◌∷◌, arith, nat_eq, length, all, Str, str_eq, str_eq_iff, Bool-cases, inl, inr, Avoids, take,
  drop, ltb,
}
use toise.Tenant.{
  default_tenant, max_len, is_allowed, dot, dot_dot, check, sanitize, trim_space, trim_left,
  trim_right, spaces, space_at_start, space_at_end,
}

-- A path segment: not empty, not `.` or `..`, without a slash or a zero byte, at most 64 bytes.
pub record IsSegment (id : Str) : Type 0 where
  pub filled : id ≢ []
  pub bounded : length id ≤ max_len
  pub named : id ≢ dot
  pub below : id ≢ dot_dot
  pub flat : Avoids 47 id
  pub ended : Avoids 0 id

byte : (c b : ℕ) → is_allowed c ≡ false → is_allowed b ≡ true → nat_eq b c ≡ false
byte c b h a = elim (Bool-cases (nat_eq b c)) [
  | inl q ↦ absurd (ground (arith, subst (λ x. is_allowed x ≡ true) ((nat_eq_iff b c).0 q) a, h))
  | inr q ↦ q
]

allowed-Avoids : (c : ℕ) (s : Str) → is_allowed c ≡ false → all is_allowed s ≡ true → Avoids c s
allowed-Avoids c [] h a = tt
allowed-Avoids c (b ∷ s) h a = (byte c b h (ground arith), allowed-Avoids c s h (ground arith))

-- The second test of the checks.
abbrev is_unfit : Str → Bool
is_unfit raw = ltb max_len (length raw) || str_eq raw dot || str_eq raw dot_dot

accepted : (raw : Str) → raw ≢ [] → is_unfit raw ≡ false → all is_allowed raw ≡ true → IsSegment raw
accepted raw f u a = record {
  filled = f;
  bounded = ground arith;
  named = λ e. ground (arith, (str_eq_iff raw dot).1 e, u);
  below = λ e. ground (arith, (str_eq_iff raw dot_dot).1 e, u);
  flat = allowed-Avoids 47 raw refl a;
  ended = allowed-Avoids 0 raw refl a;
}

abbrev Sound : Str × Bool → Type 0
Sound (id, false) = Unit
Sound (id, true) = IsSegment id × (all is_allowed id ≡ true)

default-Sound : Sound (default_tenant, true)
unfolding str_eq
default-Sound = (accepted default_tenant (λ h. cc) refl refl, refl)

check-Sound : (raw : Str) → Sound (check raw)
check-Sound [] = default-Sound
check-Sound (b ∷ s) = elim (Bool-cases (is_unfit (b ∷ s))) [
  | inl u ↦ rw u tt
  | inr u ↦ elim (Bool-cases (all is_allowed (b ∷ s))) [
    | inl a ↦ rw (u, a) (accepted (b ∷ s) (λ h. cc) u a, a)
    | inr a ↦ rw (u, a) tt
  ]
]

sound-at : (r : Str × Bool) → Sound r → r.1 ≡ true → IsSegment r.0 × (all is_allowed r.0 ≡ true)
sound-at (id, true) h e = h
sound-at (id, false) h e = absurd cc

-- An id that Sanitize accepts is a safe name for a directory: not empty, not `.` or `..`, at most
-- 64 bytes long, and without a slash or a zero byte.
pub sanitize-IsSegment : (raw : Str) → (sanitize raw).1 ≡ true → IsSegment (sanitize raw).0
unfolding sanitize
sanitize-IsSegment raw h = (sound-at (check (trim_space raw)) (check-Sound (trim_space raw)) h).0

-- Each string has a byte that is not allowed.
abbrev Foreign : List Str → Type 0
Foreign [] = Unit
Foreign (w ∷ ws) = (all is_allowed w ≡ false) × Foreign ws

spaces-Foreign : Foreign spaces
spaces-Foreign = (
  refl,
  (
    refl,
    (
      refl,
      (
        refl,
        (
          refl,
          (
            refl,
            (
              refl,
              (
                refl,
                (
                  refl,
                  (
                    refl,
                    (
                      refl,
                      (
                        refl,
                        (
                          refl,
                          (
                            refl,
                            (
                              refl,
                              (
                                refl,
                                (
                                  refl,
                                  (
                                    refl,
                                    (refl, (refl, (refl, (refl, (refl, (refl, (refl, tt))))))),
                                  ),
                                ),
                              ),
                            ),
                          ),
                        ),
                      ),
                    ),
                  ),
                ),
              ),
            ),
          ),
        ),
      ),
    ),
  ),
)

all-take : (n : ℕ) (s : Str) → all is_allowed s ≡ true → all is_allowed (take n s) ≡ true
all-take zero s a = refl
all-take (suc n) [] a = refl
all-take (suc n) (b ∷ s) a = ground (arith, all-take n s)

all-drop : (n : ℕ) (s : Str) → all is_allowed s ≡ true → all is_allowed (drop n s) ≡ true
all-drop zero s a = a
all-drop (suc n) [] a = refl
all-drop (suc n) (b ∷ s) a = all-drop n s (ground arith)

foreign_part : (w t : Str) → all is_allowed w ≡ false → all is_allowed t ≡ true → str_eq t w ≡ false
foreign_part w t f a = elim (Bool-cases (str_eq t w)) [
  | inl q ↦
      absurd (ground (arith, subst (λ x. all is_allowed x ≡ true) ((str_eq_iff t w).0 q) a, f))
  | inr q ↦ q
]

no_space_at_start :
    (ws : List Str) (s : Str) → Foreign ws → all is_allowed s ≡ true → space_at_start ws s ≡ 0
no_space_at_start [] s f a = refl
no_space_at_start (w ∷ ws) s f a =
    rw (foreign_part w (take (length w) s) f.0 (all-take (length w) s a))
      (no_space_at_start ws s f.1 a)

no_space_at_end :
    (ws : List Str) (s : Str) → Foreign ws → all is_allowed s ≡ true → space_at_end ws s ≡ 0
no_space_at_end [] s f a = refl
no_space_at_end (w ∷ ws) s f a =
    let n = length s - length w in
    ground (arith, foreign_part w (drop n s) f.0 (all-drop n s a), no_space_at_end ws s f.1 a)

trim_left_lem : (fuel : ℕ) (s : Str) → all is_allowed s ≡ true → trim_left fuel s ≡ s
unfolding trim_left
trim_left_lem zero s a = refl
trim_left_lem (suc fuel) s a = rw (no_space_at_start spaces s spaces-Foreign a) refl

trim_right_lem : (fuel : ℕ) (s : Str) → all is_allowed s ≡ true → trim_right fuel s ≡ s
unfolding trim_right
trim_right_lem zero s a = refl
trim_right_lem (suc fuel) s a = rw (no_space_at_end spaces s spaces-Foreign a) refl

trim_space_lem : (s : Str) → all is_allowed s ≡ true → trim_space s ≡ s
unfolding trim_space
trim_space_lem s a =
    let left = trim_left_lem (length s) s a in
    ap (λ l. trim_right (length l) l) left ∙ trim_right_lem (length s) s a

differs : (s t : Str) → s ≢ t → str_eq s t ≡ false
differs s t n = elim (Bool-cases (str_eq s t)) [
  | inl q ↦ absurd (n ((str_eq_iff s t).0 q))
  | inr q ↦ q
]

check_accepted : (id : Str) → IsSegment id → all is_allowed id ≡ true → check id ≡ (id, true)
check_accepted [] h a = absurd (h.filled refl)
check_accepted (b ∷ s) h a =
    let id = b ∷ s in
    let not_dot : str_eq id dot ≡ false = differs id dot h.named in
    let not_dots : str_eq id dot_dot ≡ false = differs id dot_dot h.below in
    let u : is_unfit id ≡ false = ground (arith, h.bounded, not_dot, not_dots) in rw (u, a) refl

-- Sanitizing an id that Sanitize has accepted gives it back: every reader of the id names the same
-- directory.
pub sanitize-sanitize :
    (raw : Str) → (sanitize raw).1 ≡ true → sanitize (sanitize raw).0 ≡ ((sanitize raw).0, true)
unfolding sanitize
sanitize-sanitize raw h =
    let (segment, a) = sound-at (check (trim_space raw)) (check-Sound (trim_space raw)) h in
    ap check (trim_space_lem (check (trim_space raw)).0 a)
    ∙ check_accepted (check (trim_space raw)).0 segment a
