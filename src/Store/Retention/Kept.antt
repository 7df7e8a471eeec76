-- ===== src/Store/Retention/Kept.antt =====
-- What survives the deletes of a prune: the last entry of a live subject, and nothing of a subject
-- whose deletion is pruned.
use toise.Common.Dict.{get-head, get-tail, get-empty, get, Distinct}
use toise.Store.Retention.Marks.{
  or_else, about_subject, Entry, is_about, last_entry, last_of, last-scan_lasts, Marked, MarksOf,
  scan_lasts-Marked, Describes,
}
use toise.Common.{
  In, if◌then◌else◌, ℕ, Bool, ◌≡◌, refl, arith, true, false, not, ◌&&◌, Option, none, some, List,
  [], ◌∷◌, nat_eq, keep, Option-cases, Bool-cases, inl, inr, ap, ◌∙◌, sym, subst,
}
use toise.Model.Entity.{Entity, Relation}
use toise.Model.Event.{Event, EntityEvent, RelationEvent, Time}
use toise.Store.Retention.{
  Subject, subject, subject_Eq, Last, Lasts, scan_lasts, kept, is_pruned, is_alive,
  same_subject_lem,
}
use toise.Store.Retention.Delete.{Rising}
use toise.Store.Retention.Entries.{
  last_entry-In, last_entry-keep, last_entry-keep-none, last_entry-dropped, In-unique, DeletedLast,
}

pub data Body : Type 0 where
  an_entity : Entity → Body
  a_relation : Relation → Body

abbrev body_parts : Option EntityEvent → Option RelationEvent → Option Body
body_parts (some ee) re = some (an_entity ee.entity)
body_parts none (some re) = some (a_relation re.relation)
body_parts none none = none

-- What an event leaves its subject as: nothing where it is a deletion.
abbrev pub state_of : Event → Option Body
state_of ev = if is_alive ev then body_parts ev.entity ev.relation else none

abbrev pub state_at : Option Entry → Option Body
state_at none = none
state_at (some e) = state_of e.1

-- The state of a subject behind a log, by the last event about it.
abbrev pub live : Subject → List Entry → Option Body
live s log = state_at (last_entry s log)

kept-get :
    (m : Lasts) (n : ℕ)
    → Distinct m
    → kept m n ≡ true
    → (s : Subject) × (l : Last) × (get m s ≡ some l) × (l.alive ≡ true) × (l.seq ≡ n)
unfolding kept
kept-get [] n d h = absurd cc
kept-get ((t, l) ∷ m) n d h = elim (Bool-cases (l.alive && nat_eq l.seq n)) [
  | inl q ↦ (t, l, get-head m t l, ground arith, ground arith)
  | inr q ↦
      let (s, l', g, a, e) = kept-get m n d.1 (ground arith) in
      (s, l', get-tail m s t l l' d g, a, e)
]

get-kept :
    (m : Lasts) (s : Subject) (l : Last) → get m s ≡ some l → l.alive ≡ true → kept m l.seq ≡ true
unfolding kept get
get-kept [] s l g a = absurd cc
get-kept ((t, k) ∷ m) s l g a = ground (arith, get-kept m s l)

abbrev is_alive_at : Entry → Bool
is_alive_at e = is_alive e.1

some_injective : (x e : Entry) → some x ≡ some e → x ≡ e
some_injective x e h = cc

dead-state : (e : Entry) → is_alive e.1 ≡ false → state_at (some e) ≡ none
dead-state e a = rw a refl

or_else-none : (o : Option Entry) → or_else o none ≡ o
or_else-none none = refl
or_else-none (some e) = refl

module _ (cutoff : Time) (log : List Entry) where
  abbrev pub lasts : Lasts
  lasts = scan_lasts cutoff [] log

  pub lasts-Marked : Marked lasts
  lasts-Marked =
      scan_lasts-Marked cutoff [] log (record { distinct = tt; marks = λ s. rw get-empty tt })

  found : (s : Subject) → last_of (get lasts s) ≡ last_entry s log
  found s = last-scan_lasts cutoff [] log s ∙ rw get-empty (or_else-none (last_entry s log))

  pub last-get :
      (s : Subject) (l : Last) → get lasts s ≡ some l → last_entry s log ≡ some (l.seq, l.event)
  last-get s l h = sym (found s) ∙ ap last_of h

  pub get-last :
      (s : Subject) (e : Entry)
      → last_entry s log ≡ some e
      → (l : Last) × (get lasts s ≡ some l) × ((l.seq, l.event) ≡ e) × Describes s l
  get-last s e h = elim (Option-cases (get lasts s)) [
    | inl q ↦ absurd (ground (arith, found s, q, h))
    | inr (l, q) ↦
        (l, q, ground (arith, last-get s l q, h), subst (MarksOf s) q (lasts-Marked.marks s))
  ]

  pub alive-kept :
      (s : Subject) (e : Entry)
      → last_entry s log ≡ some e
      → is_alive e.1 ≡ true
      → is_pruned cutoff lasts e ≡ false
  unfolding is_pruned
  alive-kept s e h a =
      let (l, g, q, d) = get-last s e h in
      let n : l.seq ≡ e.0 = ap (λ x. x.0) q in
      let b : l.alive ≡ true = d.alive ∙ ap (λ x. is_alive x.1) q ∙ a in
      let k : kept lasts e.0 ≡ true = subst (λ n. kept lasts n ≡ true) n (get-kept lasts s l g b) in
      ground (arith, k)

  -- A kept entry is the last of a live subject.
  kept-alive :
      (start end : ℕ) (s : Subject) (x : Entry)
      → Rising start log end
      → In x log
      → is_about s x ≡ true
      → kept lasts x.0 ≡ true
      → (last_entry s log ≡ some x) × (is_alive x.1 ≡ true)
  kept-alive start end s x r i q k =
      let (t, l, g, a, n) = kept-get lasts x.0 lasts-Marked.distinct k in
      let h = last-get t l g in
      let same : (l.seq, l.event) ≡ x =
        In-unique start end log (l.seq, l.event) x r (last_entry-In t log (l.seq, l.event) h).0 i
          n in
      let marks : Describes t l = subst (MarksOf t) g (lasts-Marked.marks t) in
      let b : subject x.1 ≡ some t = ap (λ y. subject y.1) (sym same) ∙ marks.about in
      let st : t ≡ s = (same_subject_lem t s).0 (subst (λ o. about_subject s o ≡ true) b q) in
      (
        subst (λ u. last_entry u log ≡ some x) st (h ∙ ap some same),
        ap (λ y. is_alive y.1) (sym same) ∙ sym marks.alive ∙ a,
      )

  dead-pruned :
      (start end : ℕ) (s : Subject) (e x : Entry)
      → Rising start log end
      → DeletedLast s log
      → last_entry s log ≡ some e
      → is_alive e.1 ≡ false
      → is_pruned cutoff lasts e ≡ true
      → In x log
      → is_about s x ≡ true
      → is_pruned cutoff lasts x ≡ true
  unfolding is_pruned
  dead-pruned start end s e x r c h a p i q =
      let older = c e x h a i q in
      elim (Bool-cases (kept lasts x.0)) [
        | inl k ↦
            let (h', b) = kept-alive start end s x r i q k in
            absurd (ground (arith, h, h', a, b, ap is_alive_at (some_injective x e (sym h' ∙ h))))
        | inr k ↦ ground (arith, k, older, p)
      ]

  pub live-kept :
      (start end : ℕ) (s : Subject)
      → Rising start log end
      → DeletedLast s log
      → live s (keep (λ e. not (is_pruned cutoff lasts e)) log) ≡ live s log
  live-kept start end s r c =
      let survives = λ (e : Entry). not (is_pruned cutoff lasts e) in
      elim (Option-cases (last_entry s log)) [
        | inl h ↦ ap state_at (last_entry-keep-none survives s log h ∙ sym h)
        | inr (e, h) ↦ elim (Bool-cases (is_pruned cutoff lasts e)) [
          | inl p ↦ elim (Bool-cases (is_alive e.1)) [
            | inl a ↦ absurd (ground (arith, p, alive-kept s e h a))
            | inr a ↦
                let gone =
                  last_entry-dropped survives s log
                    (λ x i q. ap not (dead-pruned start end s e x r c h a p i q)) in
                ap state_at gone ∙ sym (ap state_at h ∙ dead-state e a)
          ]
          | inr p ↦ ap state_at (last_entry-keep survives s log e h (ap not p) ∙ sym h)
        ]
      ]
