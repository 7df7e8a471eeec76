-- ===== src/Canonical/Visit.antt =====
-- The invariant of the walk of internal/canonical/canonical.go, and that the inner loop keeps it.
use toise.Canonical.Distinct.{NoRepeat, Within, NoRepeat-snoc}
use toise.Common.{
  ℕ, true, ◌≡◌, refl, sym, ap, subst, ◌∙◌, inl, inr, Option, none, some, List, [], ◌∷◌, ◌++◌, arith,
  Str, str_Eq, str_eq_iff, str_eq, In, In-left, In-right, In-append, Bool-cases, append_assoc,
}
use toise.Common.Dict.{put, has, get-put}
use toise.Model.Entity.{Relation}
use toise.Canonical.{
  Walk, is_believed, other_end, visit, visit_all, note_believed, note_link, meet, confidence,
}

-- What one hop after another over believed edges reaches from the root.
pub data Reach (touching : Str → List Relation) (threshold : ℕ) (root : Str) : Str → Type 0 where
  start : Reach touching threshold root root
  hop :
      (x : Str) (r : Relation)
      → Reach touching threshold root x
      → In r (touching x)
      → is_believed threshold r ≡ true
      → Reach touching threshold root (other_end x r)

module _ (touching : Str → List Relation) (basis_of : Relation → Str) (threshold : ℕ)
    (root : Str) where
  -- The state of the loop when the entities `done` have been taken off the queue.
  pub record Inv (done : List Str) (w : Walk) : Type 0 where
    pub reached : (x : Str) → In x w.members → Reach touching threshold root x
    pub seen_in : (x : Str) → has w.seen x ≡ true → In x w.members
    pub in_seen : (x : Str) → In x w.members → has w.seen x ≡ true
    pub distinct : NoRepeat w.members
    pub split : w.members ≡ done ++ w.queue
    pub rooted : (rest : List Str) × (w.members ≡ root ∷ rest)

  abbrev pub met : Str → Walk → Walk
  met x w = record w {
    seen = put w.seen x tt;
    members = w.members ++ x ∷ [];
    queue = w.queue ++ x ∷ [];
  }

  met-Inv :
      (done : List Str) (w : Walk) (x : Str)
      → Reach touching threshold root x
      → (In x w.members → ⊥)
      → Inv done w
      → Inv done (met x w)
  met-Inv done w x h n inv = record {
    reached = λ y i. elim (In-append y w.members (x ∷ []) i) [
      | inl j ↦ inv.reached y j
      | inr (inl q) ↦ subst (Reach touching threshold root) q h
      | inr (inr j) ↦ absurd j
    ];
    seen_in = λ y s. elim (Bool-cases (str_eq x y)) [
      | inl b ↦ In-right y w.members (x ∷ []) (inl ((str_eq_iff x y).0 b))
      | inr b ↦
          In-left y w.members (x ∷ []) (inv.seen_in y (ground (arith, s, b, get-put w.seen x y tt)))
    ];
    in_seen = λ y i. elim (In-append y w.members (x ∷ []) i) [
      | inl j ↦ ground (arith, inv.in_seen y j, get-put w.seen x y tt)
      | inr (inl q) ↦ ground (arith, (str_eq_iff x y).1 q, get-put w.seen x y tt)
      | inr (inr j) ↦ absurd j
    ];
    distinct = NoRepeat-snoc w.members x inv.distinct n;
    rooted = (inv.rooted.0 ++ x ∷ [], ap (λ l. l ++ x ∷ []) inv.rooted.1);
    split = ap (λ l. l ++ x ∷ []) inv.split ∙ append_assoc done w.queue (x ∷ []);
  }

  meet-Inv :
      (done : List Str) (w : Walk) (x : Str)
      → Reach touching threshold root x
      → Inv done w
      → Inv done (meet touching basis_of threshold x w)
        × In x (meet touching basis_of threshold x w).members
        × Within w.members (meet touching basis_of threshold x w).members
  unfolding meet
  meet-Inv done w x h inv = elim (Bool-cases (has w.seen x)) [
    | inl b ↦ rw b (inv, inv.seen_in x b, λ y i. i)
    | inr b ↦
        let n : In x w.members → ⊥ = λ i. ground (arith, inv.in_seen x i, b) in
        rw b (
          met-Inv done w x h n inv,
          In-right x w.members (x ∷ []) (inl refl),
          λ y i. In-left y w.members (x ∷ []) i,
        )
  ]

  note_believed-Inv :
      (done : List Str) (w : Walk) (r : Relation) (o : Option ℕ)
      → Inv done w
      → Inv done (note_believed touching basis_of threshold o r w)
        × (w.members ≡ (note_believed touching basis_of threshold o r w).members)
  note_believed-Inv done w r none inv = (inv, refl)
  note_believed-Inv done w r (some c) inv = elim (Bool-cases (has w.seen_link r.id)) [
    | inl b ↦ rw b (inv, refl)
    | inr b ↦ rw b (
      record {
        reached = inv.reached;
        seen_in = inv.seen_in;
        in_seen = inv.in_seen;
        distinct = inv.distinct;
        split = inv.split;
        rooted = inv.rooted;
      },
      refl,
    )
  ]

  -- What one pass of the inner loop over an edge of `cur` gives.
  visit-Inv :
      (done : List Str) (w : Walk) (cur : Str) (r : Relation)
      → Reach touching threshold root cur
      → In r (touching cur)
      → Inv done w
      → Inv done (visit touching basis_of threshold cur r w)
        × Within w.members (visit touching basis_of threshold cur r w).members
        × (is_believed threshold r ≡ true
            → In (other_end cur r) (visit touching basis_of threshold cur r w).members)
  unfolding visit note_link
  visit-Inv done w cur r h i inv = elim (Bool-cases (is_believed threshold r)) [
    | inl b ↦
        let (noted, same) = note_believed-Inv done w r (confidence r) inv in
        let (met, there, grown) =
          meet-Inv done (note_link touching basis_of threshold r w) (other_end cur r)
            (hop cur r h i b) noted in
        rw b (met, λ y j. grown y (subst (In y) same j), λ _. there)
    | inr b ↦ rw b (inv, λ y j. j, λ c. absurd (ground (arith, b, c)))
  ]

  -- Every believed edge of `cur` in the list leads to a member.
  abbrev pub Led : Str → List Relation → Walk → Type 0
  Led cur rs w =
      (r : Relation) → In r rs → is_believed threshold r ≡ true → In (other_end cur r) w.members

  pub visit_all-Inv :
      (done : List Str) (w : Walk) (cur : Str) (rs : List Relation)
      → Reach touching threshold root cur
      → ((r : Relation) → In r rs → In r (touching cur))
      → Inv done w
      → Inv done (visit_all touching basis_of threshold cur rs w)
        × Within w.members (visit_all touching basis_of threshold cur rs w).members
        × Led cur rs (visit_all touching basis_of threshold cur rs w)
  unfolding visit_all
  visit_all-Inv done w cur [] h t inv = (inv, λ y j. j, λ r i. absurd i)
  visit_all-Inv done w cur (r ∷ rs) h t inv =
      let (one, grown, led) = visit-Inv done w cur r h (t r (inl refl)) inv in
      let (all, more, rest) =
        visit_all-Inv done (visit touching basis_of threshold cur r w) cur rs h (λ x i. t x (inr i))
          one in
      (
        all,
        λ y j. more y (grown y j),
        λ x i b. elim i [
          | inl q ↦ more (other_end cur x) (
              subst (λ z. In (other_end cur z) (visit touching basis_of threshold cur r w).members)
                q (led (subst (λ z. is_believed threshold z ≡ true) (sym q) b)))
          | inr j ↦ rest x j b
        ],
      )
