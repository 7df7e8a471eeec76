-- ===== src/Store/Retention/Delete.antt =====
-- The deletes of a prune name the entries by their keys: in a log whose sequence numbers rise they
-- delete exactly the entries that the second pass chose.
use toise.Common.{
  ℕ, ◌<◌, ◌≤◌, Bool, ◌≡◌, refl, arith, false, not, List, [], ◌∷◌, ◌++◌, nat_eq, any, keep,
}
use toise.Store.Retention.{seqs_of, delete_seqs}
use toise.Store.Retention.Marks.{Entry}

-- The sequence numbers rise, from above `start` to `end`.
abbrev pub Rising : ℕ → List Entry → ℕ → Type 0
Rising start [] end = start ≤ end
Rising start (e ∷ log) end = (start < e.0) × Rising e.0 log end

pub Rising-append :
    (start end : ℕ) (xs ys : List Entry)
    → Rising start (xs ++ ys) end
    → (mid : ℕ) × Rising start xs mid × Rising mid ys end
Rising-append start end [] ys h = (start, omega arith, h)
Rising-append start end (e ∷ xs) ys h =
    let rest = Rising-append e.0 end xs ys h.1 in (rest.0, (h.0, rest.1), rest.2)

pub Rising-le : (start end : ℕ) (log : List Entry) → Rising start log end → start ≤ end
Rising-le start end [] h = h
Rising-le start end (e ∷ log) h = omega (arith, Rising-le e.0 end log h.1, h.0)

pub Rising-lower :
    (low start end : ℕ) (log : List Entry) → low ≤ start → Rising start log end → Rising low log end
Rising-lower low start end [] le h = omega (arith, le, h)
Rising-lower low start end (e ∷ log) le h = (omega (arith, le, h.0), h.1)

-- A number at or below the start is not among the chosen keys, and one above the end neither.
below-absent :
    (p : Entry → Bool) (n start end : ℕ) (log : List Entry)
    → n ≤ start
    → Rising start log end
    → any (nat_eq n) (seqs_of (keep p log)) ≡ false
below-absent p n start end [] le h = refl
below-absent p n start end (e ∷ log) le h =
    ground (arith, below-absent p n e.0 end log (omega (arith, h.0)) h.1, h.0)

above-absent :
    (p : Entry → Bool) (n start end : ℕ) (log : List Entry)
    → end < n
    → Rising start log end
    → any (nat_eq n) (seqs_of (keep p log)) ≡ false
above-absent p n start end [] le h = refl
above-absent p n start end (e ∷ log) le h =
    ground (arith, above-absent p n e.0 end log le h.1, Rising-le e.0 end log h.1)

delete_seqs-cons :
    (n start end : ℕ) (seqs : List ℕ) (log : List Entry)
    → n ≤ start
    → Rising start log end
    → delete_seqs (n ∷ seqs) log ≡ delete_seqs seqs log
unfolding delete_seqs
delete_seqs-cons n start end seqs [] le h = refl
delete_seqs-cons n start end seqs (e ∷ log) le h =
    ground (arith, delete_seqs-cons n e.0 end seqs log (omega (arith, h.0)) h.1, h.0)

pub delete_seqs-keep :
    (p : Entry → Bool) (start end : ℕ) (log : List Entry)
    → Rising start log end
    → delete_seqs (seqs_of (keep p log)) log ≡ keep (λ e. not (p e)) log
unfolding delete_seqs
delete_seqs-keep p start end [] h = refl
delete_seqs-keep p start end (e ∷ log) h =
    let rest = delete_seqs-keep p e.0 end log h.1 in
    let head = below-absent p e.0 e.0 end log (omega arith) h.1 in
    let skip = delete_seqs-cons e.0 e.0 end (seqs_of (keep p log)) log (omega arith) h.1 in
    ground (arith, rest, head, skip)

-- What follows the snapshot is not touched.
pub delete_seqs-above :
    (p : Entry → Bool) (start mid from end : ℕ) (log later : List Entry)
    → Rising start log mid
    → mid ≤ from
    → Rising from later end
    → delete_seqs (seqs_of (keep p log)) later ≡ later
unfolding delete_seqs
delete_seqs-above p start mid from end log [] h le k = refl
delete_seqs-above p start mid from end log (e ∷ later) h le k =
    let rest = delete_seqs-above p start mid e.0 end log later h (omega (arith, k.0)) k.1 in
    let head = above-absent p e.0 start mid log (omega (arith, k.0)) h in ground (arith, rest, head)

pub delete_seqs-append :
    (seqs : List ℕ) (xs ys : List Entry)
    → delete_seqs seqs (xs ++ ys) ≡ delete_seqs seqs xs ++ delete_seqs seqs ys
unfolding delete_seqs
delete_seqs-append seqs [] ys = refl
delete_seqs-append seqs (e ∷ xs) ys = ground (arith, delete_seqs-append seqs xs ys)
