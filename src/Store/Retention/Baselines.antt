-- ===== src/Store/Retention/Baselines.antt =====
-- The horizon baselines of a prune: what an appended baseline says of its subject, and the log that
-- a prune leaves on each of its branches.
use toise.Store.Retention.{
  after_baselines, pruned, Subject, subject, subject_Eq, Last, Lasts, needs_baseline, baselines,
  baseline_event, event_time_of, same_subject, same_subject_lem, Retained, prune_older_than,
  scan_lasts, is_pruned, commit_prune, seqs_of, delete_seqs,
}
use toise.Store.{
  Appended, Store, refused, appended, stamp, stamp_parts, number_events, append, write,
  first_invalid, encodes,
}
use toise.Common.{
  ℕ, suc, ◌+◌, Bool, ◌≡◌, refl, arith, true, false, not, ◌&&◌, Option, none, some, List, [], ◌∷◌,
  ◌++◌, if◌then◌else◌, keep, any, length, Option-cases, Bool-cases, inl, inr, ◌⊎◌, ap, ◌∙◌, sym,
  subst, Str, leb, append_assoc, append-nil, is_empty,
}
use toise.Common.Dict.{get-head, get-tail, get}
use toise.Model.Event.{Event, Time, EntityEvent, RelationEvent}
use toise.Store.Retention.Marks.{
  Entry, about_subject, is_old, last_entry, Marked, MarksOf, Describes,
}
use toise.Store.Retention.Delete.{
  Rising, Rising-append, delete_seqs-keep, delete_seqs-above, delete_seqs-append,
}
use toise.Store.Retention.Entries.{last_entry-cases}
use toise.Store.Retention.Kept.{state_of}

-- A baseline says of its subject what the event says that it was made of.
record Alike (b ev : Event) : Type 0 where
  about : subject b ≡ subject ev
  state : state_of b ≡ state_of ev

abbrev envelope : Option EntityEvent → Option RelationEvent → Event
envelope ee re = record { entity = ee; relation = re }

parts-Alike :
    (c : ℕ) (id : Str) (cutoff : Time) (ee : Option EntityEvent) (re : Option RelationEvent)
    → Alike (stamp c (baseline_event id cutoff (envelope ee re))) (envelope ee re)
unfolding stamp stamp_parts
parts-Alike c id cutoff (some ee) re = record { about = refl; state = refl }
parts-Alike c id cutoff none (some re) = record { about = refl; state = refl }
parts-Alike c id cutoff none none = record { about = refl; state = refl }

baseline-Alike :
    (c : ℕ) (id : Str) (cutoff : Time) (ev : Event)
    → Alike (stamp c (baseline_event id cutoff ev)) ev
baseline-Alike c id cutoff ev = parts-Alike c id cutoff ev.entity ev.relation

time_of_parts :
    (c : ℕ) (id : Str) (cutoff : Time) (ee : Option EntityEvent) (re : Option RelationEvent)
    (s : Subject)
    → subject (envelope ee re) ≡ some s
    → event_time_of (stamp c (baseline_event id cutoff (envelope ee re))) ≡ cutoff
unfolding stamp stamp_parts
time_of_parts c id cutoff (some ee) re s h = refl
time_of_parts c id cutoff none (some re) s h = refl
time_of_parts c id cutoff none none s h = absurd cc

baseline-time :
    (c : ℕ) (id : Str) (cutoff : Time) (ev : Event) (s : Subject)
    → subject ev ≡ some s
    → event_time_of (stamp c (baseline_event id cutoff ev)) ≡ cutoff
baseline-time c id cutoff ev s h = time_of_parts c id cutoff ev.entity ev.relation s h

is_old_lem :
    (cutoff time : Time) (s : Subject) (o : Option Subject) (t : Subject)
    → o ≡ some t
    → same_subject t s ≡ true
    → time ≡ cutoff
    → (about_subject s o && leb time cutoff) ≡ true
is_old_lem cutoff time s o t h e q = rw (h, e, q) (ground arith)

Marked-tail : (s : Subject) (l : Last) (m : Lasts) → Marked ((s, l) ∷ m) → Describes s l × Marked m
unfolding get
Marked-tail s l m h =
    let head = subst (MarksOf s) (get-head m s l) (h.marks s) in
    let inner = λ (t : Subject). elim (Option-cases (get m t)) as (λ x. MarksOf t (get m t)) [
      | inl q ↦ rw q tt
      | inr (l', q) ↦ rw q (subst (MarksOf t) (get-tail m t s l l' h.distinct q) (h.marks t))
    ] in
    (head, record { distinct = h.distinct.1; marks = inner })

number_events-Rising :
    (c k : ℕ) (evs : List Event) → Rising k (number_events c k evs) (k + length evs)
unfolding number_events
number_events-Rising c k [] = omega arith
number_events-Rising c k (ev ∷ evs) = (
  omega arith,
  subst (Rising (suc k) (number_events c (suc k) evs)) (omega arith)
      (number_events-Rising c (suc k) evs),
)

Rising-concat :
    (start mid end : ℕ) (xs ys : List Entry)
    → Rising start xs mid
    → Rising mid ys end
    → Rising start (xs ++ ys) end
Rising-concat start mid end [] [] h k = omega arith
Rising-concat start mid end [] (e ∷ ys) h k = (omega (arith, k.0), k.1)
Rising-concat start mid end (e ∷ xs) ys h k = (h.0, Rising-concat e.0 mid end xs ys h.1 k)

module _ (fresh : Subject → Str) (cutoff : Time) (c : ℕ) where
  abbrev Listed : ℕ → Subject → Last → Lasts → Subject → Entry → Bool → Type 0
  Listed k t l m s e b =
      let rest = baselines fresh cutoff m in
      last_entry s
        (number_events c k (if b then baseline_event (fresh t) cutoff l.event ∷ rest else rest))
      ≡ some e

  pub baselines-last :
      (k : ℕ) (m : Lasts) (s : Subject) (e : Entry)
      → Marked m
      → last_entry s (number_events c k (baselines fresh cutoff m)) ≡ some e
      → (l : Last) × (get m s ≡ some l) × (state_of e.1 ≡ state_of l.event)
  unfolding baselines number_events
  baselines-last k [] s e h q = absurd cc
  baselines-last k ((t, l) ∷ m) s e h q = elim (Bool-cases (needs_baseline cutoff l)) [
    | inl b ↦
        let ev = stamp c (baseline_event (fresh t) cutoff l.event) in
        let alike = baseline-Alike c (fresh t) cutoff l.event in
        let rest = number_events c (suc k) (baselines fresh cutoff m) in
        let read : last_entry s ((suc k, ev) ∷ rest) ≡ some e = subst (Listed k t l m s e) b q in
        elim (last_entry-cases s (suc k, ev) e rest read) [
          | inl p ↦
              let (l', g, st) = baselines-last (suc k) m s e (Marked-tail t l m h).1 p in
              (l', get-tail m s t l l' h.distinct g, st)
          | inr (p, a, r) ↦
              let about = alike.about ∙ (Marked-tail t l m h).0.about in
              let same : t ≡ s =
                (same_subject_lem t s).0 (subst (λ o. about_subject s o ≡ true) about a) in
              (
                l,
                subst (λ u. get ((t, l) ∷ m) u ≡ some l) same (get-head m t l),
                ap (λ x. state_of x.1) (sym r) ∙ alike.state,
              )
        ]
    | inr b ↦
        let (l', g, st) =
          baselines-last k m s e (Marked-tail t l m h).1 (subst (Listed k t l m s e) b q) in
        (l', get-tail m s t l l' h.distinct g, st)
  ]

  pub baselines-old :
      (k : ℕ) (m : Lasts) (s : Subject) (l : Last)
      → Marked m
      → get m s ≡ some l
      → needs_baseline cutoff l ≡ true
      → any (is_old cutoff s) (number_events c k (baselines fresh cutoff m)) ≡ true
  unfolding baselines number_events get
  baselines-old k [] s l h q b = absurd cc
  baselines-old k ((t, l') ∷ m) s l h q b =
      let (marks, inner) = Marked-tail t l' m h in
      let rest = baselines fresh cutoff m in
      let made = baseline_event (fresh t) cutoff l'.event in
      let old =
        λ (b : Bool). any (is_old cutoff s) (number_events c k (if b then made ∷ rest else rest)) in
      elim (Bool-cases (same_subject t s)) [
        | inl e ↦
            let same : l' ≡ l = ground (arith, q, e) in
            let n : needs_baseline cutoff l' ≡ true =
              subst (λ x. needs_baseline cutoff x ≡ true) (sym same) b in
            let about = (baseline-Alike c (fresh t) cutoff l'.event).about ∙ marks.about in
            let time = baseline-time c (fresh t) cutoff l'.event t marks.about in
            let head : is_old cutoff s (suc k, stamp c made) ≡ true =
              is_old_lem cutoff (event_time_of (stamp c made)) s (subject (stamp c made)) t about e
                time in
            subst (λ x. old x ≡ true) (sym n) (ground (arith, head))
        | inr e ↦ elim (Bool-cases (needs_baseline cutoff l')) [
          | inl n ↦
              let below = baselines-old (suc k) m s l inner (ground (arith, q, e)) b in
              subst (λ x. old x ≡ true) (sym n) (ground (arith, below))
          | inr n ↦
              let below = baselines-old k m s l inner (ground (arith, q, e)) b in
              subst (λ x. old x ≡ true) (sym n) below
        ]
      ]

abbrev Appends : Store → List Event → Appended → Type 0
Appends s evs (refused e) = Unit
Appends s evs (appended s' out) = s'.log ≡ s.log ++ number_events (suc s.seq) s.seq evs

append-Appends : (disk : Bool) (s : Store) (evs : List Event) → Appends s evs (append disk s evs)
unfolding append write number_events
append-Appends disk s [] = sym (append-nil s.log)
append-Appends true s (ev ∷ evs) =
    elim (Option-cases (first_invalid (encodes s) (not s.accept_unknown_types) 0 (ev ∷ evs))) [
      | inl e ↦ rw (e, append) refl
      | inr (bad, e) ↦ rw (e, append) tt
    ]
append-Appends false s (ev ∷ evs) =
    elim (Option-cases (first_invalid (encodes s) (not s.accept_unknown_types) 0 (ev ∷ evs))) [
      | inl e ↦ rw (e, append) tt
      | inr (bad, e) ↦ rw (e, append) tt
    ]

-- The log behind a prune: as it was, with the baselines, or with the deletes as well.
module _ (disks : Bool × Bool) (fresh : Subject → Str) (size : Event → ℕ) (cutoff : Time)
    (snap later : List Entry) (r : Retained) where
  abbrev pub chosen : Entry → Bool
  chosen = is_pruned cutoff (scan_lasts cutoff [] snap)

  abbrev pub new : List Entry
  new =
      number_events (suc r.store.seq) r.store.seq
        (baselines fresh cutoff (scan_lasts cutoff [] snap))

  abbrev pub log_after : List Entry
  log_after = (prune_older_than disks fresh size cutoff snap r).0.store.log

  abbrev pub Leaves : List Entry → Type 0
  Leaves log =
      (log ≡ r.store.log)
      ⊎ (log ≡ r.store.log ++ new)
      ⊎ (log ≡ keep (λ e. not (chosen e)) snap ++ (later ++ new))

  deleted :
      r.store.log ≡ snap ++ later
      → Rising 0 r.store.log r.store.seq
      → delete_seqs (seqs_of (keep chosen snap)) (r.store.log ++ new)
        ≡ keep (λ e. not (chosen e)) snap ++ (later ++ new)
  deleted h q =
      let seqs = seqs_of (keep chosen snap) in
      let (mid, low, high) =
        Rising-append 0 r.store.seq snap later (subst (λ l. Rising 0 l r.store.seq) h q) in
      let fresh_end =
        number_events-Rising (suc r.store.seq) r.store.seq
          (baselines fresh cutoff (scan_lasts cutoff [] snap)) in
      ap (λ l. delete_seqs seqs (l ++ new)) h
      ∙ ap (delete_seqs seqs) (append_assoc snap later new)
      ∙ delete_seqs-append seqs snap (later ++ new)
      ∙ ap (λ l. l ++ delete_seqs seqs (later ++ new)) (delete_seqs-keep chosen 0 mid snap low)
      ∙ ap (λ l. keep (λ e. not (chosen e)) snap ++ l)
          (delete_seqs-above chosen 0 mid mid _ snap (later ++ new) low (omega arith)
            (Rising-concat mid r.store.seq _ later new high fresh_end))

  finish :
      (none_chosen disk : Bool) (done : Appended)
      → r.store.log ≡ snap ++ later
      → Rising 0 r.store.log r.store.seq
      → Appends r.store (baselines fresh cutoff (scan_lasts cutoff [] snap)) done
      → Leaves
          (if none_chosen
            then (r, pruned 0 0)
            else after_baselines disk size cutoff (keep chosen snap) r done).0.store.log
  unfolding commit_prune
  finish true disk done h q g = inl refl
  finish false disk (refused e) h q g = inl refl
  finish false true (appended s' out) h q g =
      inr (inr (ap (delete_seqs (seqs_of (keep chosen snap))) g ∙ deleted h q))
  finish false false (appended s' out) h q g = inr (inl g)

  pub prune-log : r.store.log ≡ snap ++ later → Rising 0 r.store.log r.store.seq → Leaves log_after
  unfolding prune_older_than
  prune-log h q =
      let added = baselines fresh cutoff (scan_lasts cutoff [] snap) in
      finish (is_empty (keep chosen snap)) disks.1 (append disks.0 r.store added) h q
        (append-Appends disks.0 r.store added)
