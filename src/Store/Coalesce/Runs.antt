-- ===== src/Store/Coalesce/Runs.antt =====
-- What stands inside a run of heartbeats: an entry of the log that is not its entity's last.
use toise.Common.{
  ℕ, Bool, true, false, ◌&&◌, ◌≡◌, refl, sym, ap, subst, ◌∙◌, ◌⊎◌, inl, inr, Option, none, some,
  List, [], ◌∷◌, ◌++◌, arith, if◌then◌else◌, Str, str_Eq, str_eq, str_eq_iff, is_some, In,
  In-append, Option-cases, Bool-cases, append_assoc, append-nil,
}
use toise.Common.Dict.{Dict, get, put, get-put, get-head, get-tail, Distinct, put-Distinct}
use toise.Model.Event.{EntityEvent, RelationEvent}
use toise.Store.Retention.{the_entity, subject_parts}
use toise.Store.Retention.Marks.{Entry, or_else, about_subject, is_about, last_entry}
use toise.Store.Retention.Delete.{Rising}
use toise.Store.Retention.Entries.{last_entry-cases, last_entry-In, last_entry-some, In-above}
use toise.Store.Coalesce.{
  Rec, is_heartbeat, recs_of, note_entity, scan_entities, starts_with_heartbeat, middles,
  all_middles,
}

abbrev rec_of : ℕ → EntityEvent → Rec
rec_of seq ee = record { seq = seq; change_type = ee.change_type; event_time = ee.event_time }

abbrev add_rec : Str → ℕ → Option EntityEvent → List Rec → List Rec
add_rec id seq none recs = recs
add_rec id seq (some ee) recs = if str_eq ee.entity.id id then rec_of seq ee ∷ recs else recs

-- The records of an entity in a log.
abbrev pub recs_for : Str → List Entry → List Rec
recs_for id [] = []
recs_for id ((seq, ev) ∷ log) = add_rec id seq ev.entity (recs_for id log)

note_entity_lem :
    (m : Dict Str (List Rec)) (seq : ℕ) (o : Option EntityEvent) (id : Str) (rest : List Rec)
    → recs_of (get (note_entity m seq o) id) ++ rest ≡ recs_of (get m id) ++ add_rec id seq o rest
note_entity_lem m seq none id rest = refl
note_entity_lem m seq (some ee) id rest =
    let k = ee.entity.id in
    let r = rec_of seq ee in
    let v = recs_of (get m k) ++ r ∷ [] in
    let read : get (put m k v) id ≡ (if str_eq k id then some v else get m id) = get-put m k id v in
    let there = λ (c : Bool). recs_of (if c then some v else get m id) ++ rest in
    let here = λ (c : Bool). recs_of (get m id) ++ (if c then r ∷ rest else rest) in
    elim (Bool-cases (str_eq k id)) [
      | inl b ↦
          ap (λ o. recs_of o ++ rest) read
          ∙ ap there b
          ∙ append_assoc (recs_of (get m k)) (r ∷ []) rest
          ∙ ap (λ x. recs_of (get m x) ++ r ∷ rest) ((str_eq_iff k id).0 b)
          ∙ sym (ap here b)
      | inr b ↦ ap (λ o. recs_of o ++ rest) read ∙ ap there b ∙ sym (ap here b)
    ]

pub scan_entities_lem :
    (m : Dict Str (List Rec)) (log : List Entry) (id : Str)
    → recs_of (get (scan_entities m log) id) ≡ recs_of (get m id) ++ recs_for id log
unfolding scan_entities
scan_entities_lem m [] id = sym (append-nil (recs_of (get m id)))
scan_entities_lem m ((seq, ev) ∷ log) id =
    scan_entities_lem (note_entity m seq ev.entity) log id
    ∙ note_entity_lem m seq ev.entity id (recs_for id log)

note_entity-Distinct :
    (m : Dict Str (List Rec)) (seq : ℕ) (o : Option EntityEvent)
    → Distinct m
    → Distinct (note_entity m seq o)
note_entity-Distinct m seq none h = h
note_entity-Distinct m seq (some ee) h = put-Distinct m ee.entity.id _ h

pub scan_entities-Distinct :
    (m : Dict Str (List Rec)) (log : List Entry) → Distinct m → Distinct (scan_entities m log)
unfolding scan_entities
scan_entities-Distinct m [] h = h
scan_entities-Distinct m ((seq, ev) ∷ log) h =
    scan_entities-Distinct (note_entity m seq ev.entity) log
      (note_entity-Distinct m seq ev.entity h)

middles-tail :
    (m : Dict Str (List Rec)) (id k : Str) (recs : List Rec) (r : Rec)
    → Distinct ((id, recs) ∷ m)
    → In r (middles false (recs_of (get m k)))
    → In r (middles false (recs_of (get ((id, recs) ∷ m) k)))
unfolding middles
middles-tail m id k recs r h i = elim (Option-cases (get m k)) [
  | inl q ↦ absurd (subst (λ o. In r (middles false (recs_of o))) q i)
  | inr (w, q) ↦
      subst (λ o. In r (middles false (recs_of o))) (q ∙ sym (get-tail m k id recs w h q)) i
]

pub all_middles-In :
    (m : Dict Str (List Rec)) (r : Rec)
    → Distinct m
    → In r (all_middles m)
    → (id : Str) × In r (middles false (recs_of (get m id)))
unfolding all_middles
all_middles-In [] r h i = absurd i
all_middles-In ((id, recs) ∷ m) r h i = elim (In-append r (middles false recs) (all_middles m) i) [
  | inl j ↦ (id, subst (λ o. In r (middles false (recs_of o))) (sym (get-head m id recs)) j)
  | inr j ↦ let (k, found) = all_middles-In m r h.1 j in (k, middles-tail m id k recs r h found)
]

-- A record inside a run is a heartbeat of its entity that another one follows.
record Inner (id : Str) (seq : ℕ) (o : Option EntityEvent) (recs : List Rec) (r : Rec)
    : Type 0 where
  event : EntityEvent
  is_it : o ≡ some event
  of_it : event.entity.id ≡ id
  beat : is_heartbeat event.change_type ≡ true
  same : r.seq ≡ seq
  followed : starts_with_heartbeat recs ≡ true

middles-cases :
    (id : Str) (seq : ℕ) (o : Option EntityEvent) (recs : List Rec) (in_run : Bool) (r : Rec)
    → In r (middles in_run (add_rec id seq o recs))
    → ((f : Bool) × In r (middles f recs)) ⊎ Inner id seq o recs r
unfolding middles
middles-cases id seq none recs in_run r i = inl (in_run, i)
middles-cases id seq (some ee) recs in_run r i = elim (Bool-cases (str_eq ee.entity.id id)) [
  | inr b ↦
      inl
        (in_run, subst (λ c. In r (middles in_run (if c then rec_of seq ee ∷ recs else recs))) b i)
  | inl b ↦
      let hb = is_heartbeat ee.change_type in
      let rest = middles hb recs in
      let j : In r (middles in_run (rec_of seq ee ∷ recs)) =
        subst (λ c. In r (middles in_run (if c then rec_of seq ee ∷ recs else recs))) b i in
      elim (Bool-cases (hb && (in_run && starts_with_heartbeat recs))) [
        | inr n ↦ inl (hb, subst (λ c. In r (if c then rec_of seq ee ∷ rest else rest)) n j)
        | inl n ↦ elim (subst (λ c. In r (if c then rec_of seq ee ∷ rest else rest)) n j) [
          | inr k ↦ inl (hb, k)
          | inl q ↦ inr (record {
            event = ee;
            is_it = refl;
            of_it = (str_eq_iff ee.entity.id id).0 b;
            beat = ground (arith, n);
            same = ap (λ x. x.seq) (sym q);
            followed = ground (arith, n);
          })
        ]
      ]
]

abbrev beat_of : Option EntityEvent → Bool
beat_of none = false
beat_of (some ee) = is_heartbeat ee.change_type

-- Whether an entry is a heartbeat of an entity.
abbrev pub is_beat : Entry → Bool
is_beat e = beat_of e.1.entity

-- The entry of the log that a record inside a run was made of.
pub record Witness (id : Str) (log : List Entry) (r : Rec) : Type 0 where
  pub entry : Entry
  pub there : In entry log
  pub same : entry.0 ≡ r.seq
  pub beat : is_beat entry ≡ true
  pub about : is_about (the_entity id) entry ≡ true
  pub not_last : last_entry (the_entity id) log ≡ some entry → ⊥

followed_step :
    (id : Str) (seq : ℕ) (o : Option EntityEvent) (re : Option RelationEvent) (recs : List Rec)
    (l : Option Entry) (e : Entry)
    → starts_with_heartbeat (add_rec id seq o recs) ≡ true
    → (starts_with_heartbeat recs ≡ true → is_some l ≡ true)
    → is_some
        (or_else l (if about_subject (the_entity id) (subject_parts o re) then some e else none))
      ≡ true
followed_step id seq none re recs l e h k = ground (arith, k h)
followed_step id seq (some ee) re recs l e h k = elim (Bool-cases (str_eq ee.entity.id id)) [
  | inl b ↦ ground (arith, b)
  | inr b ↦
      let rest =
        subst (λ c. starts_with_heartbeat (if c then rec_of seq ee ∷ recs else recs) ≡ true) b h in
      ground (arith, k rest)
]

followed-last :
    (id : Str) (log : List Entry)
    → starts_with_heartbeat (recs_for id log) ≡ true
    → is_some (last_entry (the_entity id) log) ≡ true
followed-last id [] h = absurd cc
followed-last id ((seq, ev) ∷ log) h =
    followed_step id seq ev.entity ev.relation (recs_for id log) (last_entry (the_entity id) log)
      (seq, ev) h (followed-last id log)

pub middles-Witness :
    (id : Str) (start end : ℕ) (log : List Entry) (in_run : Bool) (r : Rec)
    → Rising start log end
    → In r (middles in_run (recs_for id log))
    → Witness id log r
middles-Witness id start end [] in_run r h i = absurd (unfold middles in i)
middles-Witness id start end ((seq, ev) ∷ log) in_run r h i =
    elim (middles-cases id seq ev.entity (recs_for id log) in_run r i) [
      | inl (f, j) ↦
          let w = middles-Witness id seq end log f r h.1 j in
          record {
            entry = w.entry;
            there = inr w.there;
            same = w.same;
            beat = w.beat;
            about = w.about;
            not_last = λ q. elim (last_entry-cases (the_entity id) (seq, ev) w.entry log q) [
              | inl p ↦ w.not_last p
              | inr (p, a, t) ↦
                  ground (arith, last_entry-some (the_entity id) log w.entry w.there w.about, p)
            ];
          }
      | inr inner ↦ record {
        entry = (seq, ev);
        there = inl refl;
        same = sym inner.same;
        beat = ap beat_of inner.is_it ∙ inner.beat;
        about =
            ap (λ o. about_subject (the_entity id) (subject_parts o ev.relation)) inner.is_it
            ∙ (str_eq_iff inner.event.entity.id id).1 inner.of_it;
        not_last = λ q. elim (last_entry-cases (the_entity id) (seq, ev) (seq, ev) log q) [
          | inl p ↦ omega (
            arith,
            In-above seq end log (seq, ev) h.1 (last_entry-In (the_entity id) log (seq, ev) p).0,
          )
          | inr (p, a, t) ↦ ground (arith, followed-last id log inner.followed, p)
        ];
      }
    ]
