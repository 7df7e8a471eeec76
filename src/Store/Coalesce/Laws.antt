-- ===== src/Store/Coalesce/Laws.antt =====
-- What CoalesceHeartbeats of internal/store/retention.go keeps.
use toise.Common.{
  ℕ, ◌≤◌, Bool, true, false, not, ◌≡◌, refl, sym, ap, subst, ◌∙◌, inl, inr, some, List, [], ◌∷◌,
  ◌++◌, arith, Str, str_Eq, any, nat_eq, nat_eq_iff, In, In-left, In-keep, Option-cases, Bool-cases,
}
use toise.Common.Dict.{get, get-empty}
use toise.Store.{Store}
use toise.Store.Retention.{Subject, the_entity, subject, delete_seqs, same_subject_lem}
use toise.Store.Retention.Marks.{
  Entry, is_about, last_entry, about_subject, last_entry-append, or_else,
}
use toise.Store.Retention.Delete.{Rising, Rising-le, Rising-append}
use toise.Store.Retention.Entries.{
  last_entry-In, last_entry-keep, last_entry-keep-none, In-unique, In-above,
}
use toise.Store.Coalesce.{
  recs_of, middles, Rec, scan_entities, all_middles, seqs_of_recs, delete_recs, coalesce_heartbeats,
}
use toise.Store.Coalesce.Runs.{
  recs_for, scan_entities_lem, scan_entities-Distinct, all_middles-In, Witness, is_beat,
  middles-Witness,
}

any-rec :
    (n : ℕ) (recs : List Rec)
    → any (nat_eq n) (seqs_of_recs recs) ≡ true
    → (r : Rec) × In r recs × (n ≡ r.seq)
any-rec n [] h = absurd cc
any-rec n (r ∷ recs) h = elim (Bool-cases (nat_eq n r.seq)) [
  | inl b ↦ (r, inl refl, (nat_eq_iff n r.seq).0 b)
  | inr b ↦ let (x, i, e) = any-rec n recs (ground (arith, h, b)) in (x, inr i, e)
]

-- Two subjects of one entry are one.
one_subject : (s t : Subject) (e : Entry) → is_about s e ≡ true → is_about t e ≡ true → s ≡ t
one_subject s t e h k = elim (Option-cases (subject e.1)) [
  | inl q ↦ absurd (ground (arith, subst (λ o. about_subject s o ≡ true) q h))
  | inr (u, q) ↦
      let first = (same_subject_lem u s).0 (subst (λ o. about_subject s o ≡ true) q h) in
      let second = (same_subject_lem u t).0 (subst (λ o. about_subject t o ≡ true) q k) in
      sym first ∙ second
]

In-below :
    (start end : ℕ) (log : List Entry) (e : Entry) → Rising start log end → In e log → e.0 ≤ end
In-below start end [] e h i = absurd i
In-below start end (x ∷ log) e h (inl q) = omega (arith, Rising-le x.0 end log h.1, ap (λ y. y.0) q)
In-below start end (x ∷ log) e h (inr i) = In-below x.0 end log e h.1 i

delete_recs-last :
    (disk : Bool) (recs : List Rec) (s : Store) (t : Subject)
    → ((e : Entry) → last_entry t s.log ≡ some e → any (nat_eq e.0) (seqs_of_recs recs) ≡ false)
    → last_entry t (delete_recs disk recs s).0.log ≡ last_entry t s.log
unfolding delete_seqs
delete_recs-last disk [] s t h = refl
delete_recs-last false (r ∷ recs) s t h = refl
delete_recs-last true (r ∷ recs) s t h =
    let stays = λ (e : Entry). not (any (nat_eq e.0) (seqs_of_recs (r ∷ recs))) in
    elim (Option-cases (last_entry t s.log)) [
      | inl q ↦ last_entry-keep-none stays t s.log q ∙ sym q
      | inr (e, q) ↦ last_entry-keep stays t s.log e q (ap not (h e q)) ∙ sym q
    ]

delete_recs-In :
    (disk : Bool) (recs : List Rec) (s : Store) (e : Entry)
    → any (nat_eq e.0) (seqs_of_recs recs) ≡ false
    → In e s.log
    → In e (delete_recs disk recs s).0.log
unfolding delete_seqs
delete_recs-In disk [] s e h i = i
delete_recs-In false (r ∷ recs) s e h i = i
delete_recs-In true (r ∷ recs) s e h i =
    In-keep (λ x. not (any (nat_eq x.0) (seqs_of_recs (r ∷ recs)))) e s.log i (ap not h)

-- A record that is removed was made of an entry of the snapshot inside a run of heartbeats.
removed-Witness :
    (snap : List Entry) (end : ℕ) (r : Rec)
    → Rising 0 snap end
    → In r (all_middles (scan_entities [] snap))
    → (id : Str) × Witness id snap r
removed-Witness snap end r h i =
    let (id, found) =
      all_middles-In (scan_entities [] snap) r (scan_entities-Distinct [] snap tt) i in
    let listed : recs_of (get (scan_entities [] snap) id) ≡ recs_for id snap =
      scan_entities_lem [] snap id ∙ ap (λ o. recs_of o ++ recs_for id snap) (get-empty id) in
    (
      id,
      middles-Witness id 0 end snap false r h
          (subst (λ recs. In r (middles false recs)) listed found),
    )

module _ (disk : Bool) (snap later : List Entry) (s : Store) where
  abbrev removed : List Rec
  removed = all_middles (scan_entities [] snap)

  -- An entry whose number is among the removed ones is the one inside the run.
  removed-is :
      (e : Entry)
      → s.log ≡ snap ++ later
      → Rising 0 s.log s.seq
      → In e s.log
      → any (nat_eq e.0) (seqs_of_recs removed) ≡ true
      → (id : Str) × (r : Rec) × (w : Witness id snap r) × (w.entry ≡ e)
  removed-is e h q i a =
      let (mid, low, high) = Rising-append 0 s.seq snap later (subst (λ l. Rising 0 l s.seq) h q) in
      let (r, j, n) = any-rec e.0 removed a in
      let (id, w) = removed-Witness snap mid r low j in
      (
        id,
        r,
        w,
        In-unique 0 s.seq s.log w.entry e q
            (subst (In w.entry) (sym h) (In-left w.entry snap later w.there)) i (w.same ∙ sym n),
      )

  last-stays :
      (t : Subject) (e : Entry)
      → s.log ≡ snap ++ later
      → Rising 0 s.log s.seq
      → last_entry t s.log ≡ some e
      → any (nat_eq e.0) (seqs_of_recs removed) ≡ false
  last-stays t e h q l = elim (Bool-cases (any (nat_eq e.0) (seqs_of_recs removed))) [
    | inr a ↦ a
    | inl a ↦
        let (i, about) = last_entry-In t s.log e l in
        let (id, r, w, same) = removed-is e h q i a in
        let subjects =
          one_subject (the_entity id) t e
            (subst (λ x. is_about (the_entity id) x ≡ true) same w.about) about in
        let (mid, low, high) =
          Rising-append 0 s.seq snap later (subst (λ l. Rising 0 l s.seq) h q) in
        let parts : or_else (last_entry t later) (last_entry t snap) ≡ some e =
          sym (last_entry-append t snap later) ∙ ap (last_entry t) (sym h) ∙ l in
        absurd (elim (Option-cases (last_entry t later)) [
          | inl n ↦
              let in_snap = subst (λ o. or_else o (last_entry t snap) ≡ some e) n parts in
              w.not_last (
                subst (λ u. last_entry u snap ≡ some w.entry) (sym subjects)
                  (in_snap ∙ ap some (sym same)))
          | inr (y, n) ↦
              let y_is : some y ≡ some e =
                subst (λ o. or_else o (last_entry t snap) ≡ some e) n parts in
              let above = In-above mid s.seq later e high (last_entry-In t later e (n ∙ y_is)).0 in
              let below = In-below 0 mid snap w.entry low w.there in
              omega (arith, above, below, ap (λ x. x.0) same)
        ])
  ]

  -- Coalescing leaves the last event of every entity and relation the last one about it, in a log
  -- whose sequence numbers rise and of which the snapshot is the front.
  pub coalesce_heartbeats-last :
      (t : Subject)
      → s.log ≡ snap ++ later
      → Rising 0 s.log s.seq
      → last_entry t (coalesce_heartbeats disk snap s).0.log ≡ last_entry t s.log
  unfolding coalesce_heartbeats
  coalesce_heartbeats-last t h q = delete_recs-last disk removed s t (λ e l. last-stays t e h q l)

  -- Coalescing removes heartbeats of entities only, in a log whose sequence numbers rise and of
  -- which the snapshot is the front.
  pub coalesce_heartbeats-In :
      (e : Entry)
      → s.log ≡ snap ++ later
      → Rising 0 s.log s.seq
      → In e s.log
      → is_beat e ≡ false
      → In e (coalesce_heartbeats disk snap s).0.log
  unfolding coalesce_heartbeats
  coalesce_heartbeats-In e h q i b =
      let stays : any (nat_eq e.0) (seqs_of_recs removed) ≡ false =
        elim (Bool-cases (any (nat_eq e.0) (seqs_of_recs removed))) [
          | inr a ↦ a
          | inl a ↦
              let (id, r, w, same) = removed-is e h q i a in
              absurd (ground (arith, b, subst (λ x. is_beat x ≡ true) same w.beat))
        ] in
      delete_recs-In disk removed s e stays i
