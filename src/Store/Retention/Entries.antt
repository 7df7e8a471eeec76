-- ===== src/Store/Retention/Entries.antt =====
-- The last entry of a subject under filtering, and two properties of a log: its sequence numbers
-- are unique, and no event about a deleted subject was recorded after its deletion.
use toise.Common.{
  In, ℕ, ◌≤◌, ◌<◌, Bool, ◌≡◌, refl, arith, true, false, none, some, List, [], ◌∷◌, keep, inl, inr,
  ◌⊎◌, ap, ◌∙◌, subst, sym, is_some,
}
use toise.Model.Event.{Time}
use toise.Store.Retention.{Subject, subject_Eq, recorded_at_of, is_alive}
use toise.Store.Retention.Marks.{Entry, is_about, last_entry}
use toise.Store.Retention.Delete.{Rising}

pub last_entry-cases :
    (s : Subject) (x e : Entry) (log : List Entry)
    → last_entry s (x ∷ log) ≡ some e
    → (last_entry s log ≡ some e) ⊎ ((last_entry s log ≡ none) × (is_about s x ≡ true) × (x ≡ e))
last_entry-cases s x e log h = ground arith

pub last_entry-In :
    (s : Subject) (log : List Entry) (e : Entry)
    → last_entry s log ≡ some e
    → In e log × (is_about s e ≡ true)
last_entry-In s [] e h = absurd cc
last_entry-In s (x ∷ log) e h = elim (last_entry-cases s x e log h) [
  | inl q ↦ let r = last_entry-In s log e q in (inr r.0, r.1)
  | inr (q, a, r) ↦ (inl r, subst (λ y. is_about s y ≡ true) r a)
]

pub last_entry-some :
    (s : Subject) (log : List Entry) (e : Entry)
    → In e log
    → is_about s e ≡ true
    → is_some (last_entry s log) ≡ true
last_entry-some s [] e i a = absurd i
last_entry-some s (x ∷ log) e (inl q) a = ground (arith, subst (λ y. is_about s y ≡ true) (sym q) a)
last_entry-some s (x ∷ log) e (inr i) a = ground (arith, last_entry-some s log e i a)

pub last_entry-keep-none :
    (p : Entry → Bool) (s : Subject) (log : List Entry)
    → last_entry s log ≡ none
    → last_entry s (keep p log) ≡ none
last_entry-keep-none p s [] h = refl
last_entry-keep-none p s (x ∷ log) h = ground (arith, last_entry-keep-none p s log)

pub last_entry-keep :
    (p : Entry → Bool) (s : Subject) (log : List Entry) (e : Entry)
    → last_entry s log ≡ some e
    → p e ≡ true
    → last_entry s (keep p log) ≡ some e
last_entry-keep p s [] e h k = absurd cc
last_entry-keep p s (x ∷ log) e h k = elim (last_entry-cases s x e log h) [
  | inl q ↦ ground (arith, last_entry-keep p s log e q k)
  | inr (q, a, r) ↦
      ground (arith, last_entry-keep-none p s log q, subst (λ y. p y ≡ true) (sym r) k, ap some r)
]

pub last_entry-dropped :
    (p : Entry → Bool) (s : Subject) (log : List Entry)
    → ((e : Entry) → In e log → is_about s e ≡ true → p e ≡ false)
    → last_entry s (keep p log) ≡ none
last_entry-dropped p s [] h = refl
last_entry-dropped p s (x ∷ log) h =
    ground (arith, last_entry-dropped p s log (λ e i. h e (inr i)), h x (inl refl))

-- Rising sequence numbers are unique.
pub In-above :
    (start end : ℕ) (log : List Entry) (e : Entry) → Rising start log end → In e log → start < e.0
In-above start end [] e h i = absurd i
In-above start end (x ∷ log) e h (inl q) = omega (arith, h.0, ap (λ y. y.0) q)
In-above start end (x ∷ log) e h (inr i) = omega (arith, h.0, In-above x.0 end log e h.1 i)

pub In-unique :
    (start end : ℕ) (log : List Entry) (d e : Entry)
    → Rising start log end
    → In d log
    → In e log
    → d.0 ≡ e.0
    → d ≡ e
In-unique start end [] d e h i j q = absurd i
In-unique start end (x ∷ log) d e h (inl p) (inl r) q = sym p ∙ r
In-unique start end (x ∷ log) d e h (inl p) (inr j) q =
    absurd (omega (arith, q, ap (λ y. y.0) p, In-above x.0 end log e h.1 j))
In-unique start end (x ∷ log) d e h (inr i) (inl r) q =
    absurd (omega (arith, q, ap (λ y. y.0) r, In-above x.0 end log d h.1 i))
In-unique start end (x ∷ log) d e h (inr i) (inr j) q = In-unique x.0 end log d e h.1 i j q

-- The recording times never fall along the log.
abbrev pub Since : Time → List Entry → Type 0
Since t [] = Unit
Since t (e ∷ log) = (t ≤ recorded_at_of e.1) × Since t log

abbrev pub Chronological : List Entry → Type 0
Chronological [] = Unit
Chronological (e ∷ log) = Since (recorded_at_of e.1) log × Chronological log

Since-In :
    (t : Time) (log : List Entry) (e : Entry) → Since t log → In e log → t ≤ recorded_at_of e.1
Since-In t [] e h i = absurd i
Since-In t (x ∷ log) e h (inl q) = omega (arith, h.0, ap (λ y. recorded_at_of y.1) q)
Since-In t (x ∷ log) e h (inr i) = Since-In t log e h.1 i

pub last_entry-latest :
    (s : Subject) (log : List Entry) (e last : Entry)
    → Chronological log
    → In e log
    → is_about s e ≡ true
    → last_entry s log ≡ some last
    → recorded_at_of e.1 ≤ recorded_at_of last.1
last_entry-latest s [] e last c i a h = absurd i
last_entry-latest s (x ∷ log) e last c i a h = elim (last_entry-cases s x last log h) [
  | inl q ↦ elim i [
    | inl r ↦
        subst (λ y. recorded_at_of y.1 ≤ recorded_at_of last.1) r
          (Since-In (recorded_at_of x.1) log last c.0 (last_entry-In s log last q).0)
    | inr j ↦ last_entry-latest s log e last c.1 j a q
  ]
  | inr (q, b, r) ↦ elim i [
    | inl t ↦ omega (arith, ap (λ y. recorded_at_of y.1) (sym t ∙ r))
    | inr j ↦ absurd (ground (arith, last_entry-some s log e j a, q))
  ]
]

-- Where the last event about the subject is its deletion, no event about it was recorded later.
abbrev pub DeletedLast : Subject → List Entry → Type 0
DeletedLast s log =
    (e x : Entry)
    → last_entry s log ≡ some e
    → is_alive e.1 ≡ false
    → In x log
    → is_about s x ≡ true
    → recorded_at_of x.1 ≤ recorded_at_of e.1

pub Chronological-DeletedLast :
    (s : Subject) (log : List Entry) → Chronological log → DeletedLast s log
Chronological-DeletedLast s log c = λ e x h a i q. last_entry-latest s log x e c i q h
