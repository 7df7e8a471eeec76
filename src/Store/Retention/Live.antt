-- ===== src/Store/Retention/Live.antt =====
-- What a prune keeps of the log, whichever of its commits fail.
use toise.Common.{
  In, In-left, In-right, In-append, In-keep, ℕ, suc, ◌≤◌, Bool, ◌≡◌, refl, arith, true, not, none,
  some, List, [], ◌∷◌, ◌++◌, keep, any, Option-cases, Bool-cases, inl, inr, ap, ◌∙◌, sym, subst,
  Str, leb, append_assoc,
}
use toise.Common.Dict.{get-empty}
use toise.Model.Event.{Event, Time}
use toise.Store.Retention.{
  Subject, was_born, event_time_of, is_alive, Retained, prune_older_than, scan_lasts, is_pruned,
  recorded_at_of,
}
use toise.Store.Retention.Marks.{Entry, is_old, last_entry, last_entry-append, born-scan_lasts}
use toise.Store.Retention.Delete.{Rising, Rising-append}
use toise.Store.Retention.Entries.{last_entry-In, DeletedLast}
use toise.Store.Retention.Kept.{
  live, state_of, state_at, lasts-Marked, last-get, get-last, alive-kept, live-kept,
}
use toise.Store.Retention.Baselines.{baselines-last, baselines-old, chosen, new, prune-log}

-- Entries that leave a subject as it was may follow.
live-append :
    (s : Subject) (xs ys : List Entry)
    → ((e : Entry) → last_entry s ys ≡ some e → state_of e.1 ≡ live s xs)
    → live s (xs ++ ys) ≡ live s xs
live-append s xs ys h = elim (Option-cases (last_entry s ys)) [
  | inl q ↦ rw (last_entry-append s xs ys, q) refl
  | inr (e, q) ↦ rw (last_entry-append s xs ys, q) (h e q)
]

absent-append :
    (s : Subject) (xs ys : List Entry) → last_entry s ys ≡ none → live s (xs ++ ys) ≡ live s xs
absent-append s xs ys h = rw (last_entry-append s xs ys, h) refl

any-left : (p : Entry → Bool) (xs ys : List Entry) → any p xs ≡ true → any p (xs ++ ys) ≡ true
any-left p [] ys h = absurd cc
any-left p (x ∷ xs) ys h = ground (arith, any-left p xs ys)

any-right : (p : Entry → Bool) (xs ys : List Entry) → any p ys ≡ true → any p (xs ++ ys) ≡ true
any-right p [] ys h = h
any-right p (x ∷ xs) ys h = ground (arith, any-right p xs ys h)

any-In : (p : Entry → Bool) (xs : List Entry) (e : Entry) → In e xs → p e ≡ true → any p xs ≡ true
any-In p [] e i h = absurd i
any-In p (x ∷ xs) e (inl q) h = ground (arith, subst (λ y. p y ≡ true) (sym q) h)
any-In p (x ∷ xs) e (inr i) h = ground (arith, any-In p xs e i h)

module _ (disks : Bool × Bool) (fresh : Subject → Str) (size : Event → ℕ) (cutoff : Time)
    (snap later : List Entry) (r : Retained) where
  baselines-state :
      (s : Subject) (e : Entry)
      → last_entry s (new disks fresh size cutoff snap later r) ≡ some e
      → state_of e.1 ≡ live s snap
  baselines-state s e q =
      let (l, g, st) =
        baselines-last fresh cutoff (suc r.store.seq) r.store.seq (scan_lasts cutoff [] snap) s e
          (lasts-Marked cutoff snap) q in
      st ∙ sym (ap state_at (last-get cutoff snap s l g))

  -- A prune on a snapshot `snap` of the log leaves every entity and relation in the state that it
  -- has, or absent where it is absent, on every outcome of its commits: in a log whose sequence
  -- numbers rise, for what no event appended since the snapshot is about and, where its last event
  -- in the snapshot is its deletion, no event of the snapshot about it was recorded later than
  -- that. Baselines, which carry the cutoff behind events recorded later, may stand anywhere.
  pub prune_older_than-live :
      (s : Subject)
      → r.store.log ≡ snap ++ later
      → Rising 0 r.store.log r.store.seq
      → DeletedLast s snap
      → last_entry s later ≡ none
      → live s (prune_older_than disks fresh size cutoff snap r).0.store.log ≡ live s r.store.log
  prune_older_than-live s h q c n =
      let added = new disks fresh size cutoff snap later r in
      let same = ap (live s) h ∙ absent-append s snap later n in
      elim (prune-log disks fresh size cutoff snap later r h q) [
        | inl e ↦ ap (live s) e
        | inr (inl e) ↦
            ap (live s) e
            ∙ live-append s r.store.log added (λ x p. baselines-state s x p ∙ sym same)
        | inr (inr e) ↦
            let rest = keep (λ x. not (chosen disks fresh size cutoff snap later r x)) snap in
            let (mid, low, high) =
              Rising-append 0 r.store.seq snap later (subst (λ l. Rising 0 l r.store.seq) h q) in
            let state = absent-append s rest later n ∙ live-kept cutoff snap 0 mid s low c in
            ap (live s) (e ∙ sym (append_assoc rest later added))
            ∙ live-append s (rest ++ later) added (λ x p. baselines-state s x p ∙ sym state)
            ∙ state
            ∙ sym same
      ]

  covered-after :
      (s : Subject) (e : Entry)
      → last_entry s snap ≡ some e
      → is_alive e.1 ≡ true
      → any (is_old cutoff s) snap ≡ true
      → any (is_old cutoff s) (
          keep (λ y. not (chosen disks fresh size cutoff snap later r y)) snap
          ++ (later ++ new disks fresh size cutoff snap later r))
        ≡ true
  covered-after s e last a old =
      let is_it = is_old cutoff s in
      let rest = keep (λ y. not (chosen disks fresh size cutoff snap later r y)) snap in
      let added = new disks fresh size cutoff snap later r in
      let (l, g, same, d) = get-last cutoff snap s e last in
      let (i, about) = last_entry-In s snap e last in
      let born : l.born_before ≡ true =
        ap was_born (sym g) ∙ born-scan_lasts cutoff [] snap s ∙ rw get-empty old in
      let live : l.alive ≡ true = d.alive ∙ ap (λ x. is_alive x.1) same ∙ a in
      let time : l.nano ≡ event_time_of e.1 = d.nano ∙ ap (λ x. event_time_of x.1) same in
      let stays : not (chosen disks fresh size cutoff snap later r e) ≡ true =
        ap not (alive-kept cutoff snap s e last a) in
      elim (Bool-cases (leb l.nano cutoff)) [
        | inl n ↦
            let old_one : is_it e ≡ true = ground (arith, about, n, time) in
            any-left is_it rest (later ++ added)
              (any-In is_it rest e (In-keep _ e snap i stays) old_one)
        | inr n ↦
            let made =
              baselines-old fresh cutoff (suc r.store.seq) r.store.seq (scan_lasts cutoff [] snap) s
                l (lasts-Marked cutoff snap) g (ground (arith, n, born, live)) in
            any-right is_it rest (later ++ added) (any-right is_it later added made)
      ]

  -- After a prune of whatever outcome the log still has an event at or before the cutoff about
  -- every subject that is live in the snapshot and has one there: a fold as of the horizon or later
  -- sees it. The sequence numbers of the log rise.
  pub prune_older_than-covers :
      (s : Subject) (e : Entry)
      → r.store.log ≡ snap ++ later
      → Rising 0 r.store.log r.store.seq
      → last_entry s snap ≡ some e
      → is_alive e.1 ≡ true
      → any (is_old cutoff s) snap ≡ true
      → any (is_old cutoff s) (prune_older_than disks fresh size cutoff snap r).0.store.log ≡ true
  prune_older_than-covers s e h q last a old =
      let covered = λ (l : List Entry). any (is_old cutoff s) l ≡ true in
      let before = subst covered (sym h) (any-left (is_old cutoff s) snap later old) in
      elim (prune-log disks fresh size cutoff snap later r h q) [
        | inl x ↦ subst covered (sym x) before
        | inr (inl x) ↦ subst covered (sym x) (
            any-left (is_old cutoff s) r.store.log (new disks fresh size cutoff snap later r)
              before)
        | inr (inr x) ↦ subst covered (sym x) (covered-after s e last a old)
      ]

  -- A prune deletes no event that was recorded at or after the cutoff, in a log whose sequence
  -- numbers rise.
  pub prune_older_than-recent :
      (e : Entry)
      → r.store.log ≡ snap ++ later
      → Rising 0 r.store.log r.store.seq
      → In e r.store.log
      → cutoff ≤ recorded_at_of e.1
      → In e (prune_older_than disks fresh size cutoff snap r).0.store.log
  unfolding is_pruned
  prune_older_than-recent e h q i c =
      let there = λ (l : List Entry). In e l in
      elim (prune-log disks fresh size cutoff snap later r h q) [
        | inl x ↦ subst there (sym x) i
        | inr (inl x) ↦
            subst there (sym x) (In-left e r.store.log (new disks fresh size cutoff snap later r) i)
        | inr (inr x) ↦
            let rest = keep (λ y. not (chosen disks fresh size cutoff snap later r y)) snap in
            subst there (sym x) (elim (In-append e snap later (subst there h i)) [
              | inl j ↦ In-left e rest _ (In-keep _ e snap j (ground arith))
              | inr j ↦ In-right e rest _ (In-left e later _ j)
            ])
      ]
