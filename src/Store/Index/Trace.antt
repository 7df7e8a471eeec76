-- ===== src/Store/Index/Trace.antt =====
-- A prune leaves no index entry of a deleted event behind.
use toise.Common.{
  ℕ, ◌<◌, ◌^◌, ◌≡◌, refl, ap, sym, ◌∙◌, subst, inl, inr, Option, none, some, List, [], ◌∷◌, ◌++◌,
  Str, In, In-append, Bool, false, not, ◌&&◌, nat_eq, ltb, Bool-cases, is_empty, if◌then◌else◌,
  arith,
}
use toise.Model.Event.{Event, EntityEvent, RelationEvent, Time}
use toise.Store.Keys.{entity_key, time_key}
use toise.Store.Index.{
  unix_nano, nano_of, from_unix_nano, time_of, entity_read_back, relation_read_back,
  parts_read_back, read_back, entity_entry, index_parts, index_event, key_parts, event_keys,
}

-- Every key of the entries is in the list.
abbrev Covered : List (Str × Str) → List Str → Type 0
Covered entries keys = (entry : Str × Str) → In entry entries → In entry.0 keys

entry-In :
    (id : Str) (seq : ℕ) (entry : Str × Str) (keys : List Str)
    → In (entity_key id seq) keys
    → In entry (entity_entry id seq)
    → In entry.0 keys
entry-In id seq entry keys h i = elim (Bool-cases (is_empty id)) [
  | inl b ↦ absurd (subst (λ c. In entry (if c then [] else (entity_key id seq, []) ∷ [])) b i)
  | inr b ↦ elim (subst (λ c. In entry (if c then [] else (entity_key id seq, []) ∷ [])) b i) [
    | inl q ↦ subst (λ x. In x.0 keys) q h
    | inr j ↦ absurd j
  ]
]

abbrev CoveredBy : List Str → Option (List (Str × Str)) → Type 0
CoveredBy keys none = Unit
CoveredBy keys (some entries) = Covered entries keys

-- A time other than the zero time whose UnixNano is 0, as for the Unix epoch itself.
abbrev pub is_epoch : Time → Bool
is_epoch t = not (nat_eq t 0) && nat_eq (unix_nano t) 0

abbrev happened_at : Option EntityEvent → Option RelationEvent → Time
happened_at (some ee) re = ee.event_time
happened_at none (some re) = re.event_time
happened_at none none = 0

abbrev pub time_of_event : Event → Time
time_of_event ev = happened_at ev.entity ev.relation

unix_nano-from_unix_nano : (n : ℕ) → n < 2 ^ 64 → unix_nano (from_unix_nano n) ≡ n
unix_nano-from_unix_nano n h = elim (Bool-cases (ltb n (2 ^ 63))) [
  | inl b ↦ rw b (omega (arith, h))
  | inr b ↦ rw b (omega (arith, h))
]

-- What a time is read back as has the time's place in the index, but at the epoch.
unix_nano-time_of : (t : Time) → is_epoch t ≡ false → unix_nano (time_of (nano_of t)) ≡ unix_nano t
unix_nano-time_of t h = elim (Bool-cases (nat_eq t 0)) [
  | inl b ↦ ground (arith, b)
  | inr b ↦
      let some_nano : nat_eq (unix_nano t) 0 ≡ false = ground (arith, b, h) in
      rw (b, some_nano) (unix_nano-from_unix_nano (unix_nano t) (omega arith))
]

parts-Covered :
    (ev : Event) (seq : ℕ) (ee : Option EntityEvent) (re : Option RelationEvent)
    → is_epoch (happened_at ee re) ≡ false
    → CoveredBy
        (key_parts seq (parts_read_back ee re).entity (parts_read_back ee re).relation)
        (index_parts ev seq ee re)
parts-Covered ev seq (some ee) re h = λ entry i.
    let same = ap (λ n. time_key n seq) (sym (unix_nano-time_of ee.event_time h)) in
    let keys = key_parts seq (some (entity_read_back ee)) none in
    elim (In-append entry (entity_entry ee.entity.id seq) _ i) [
      | inl j ↦ entry-In ee.entity.id seq entry keys (inl refl) j
      | inr (inl q) ↦ inr (inl (ap (λ x. x.0) q))
      | inr (inr (inl q)) ↦ inr (inr (inl (sym same ∙ ap (λ x. x.0) q)))
      | inr (inr (inr j)) ↦ absurd j
    ]
parts-Covered ev seq none (some re) h = λ entry i.
    let r = re.relation in
    let same = ap (λ n. time_key n seq) (sym (unix_nano-time_of re.event_time h)) in
    let keys = key_parts seq none (some (relation_read_back re)) in
    elim (In-append entry (entity_entry r.from seq ++ entity_entry r.to seq) _ i) [
      | inl j ↦ elim (In-append entry (entity_entry r.from seq) (entity_entry r.to seq) j) [
        | inl k ↦ entry-In r.from seq entry keys (inl refl) k
        | inr k ↦ entry-In r.to seq entry keys (inr (inl refl)) k
      ]
      | inr (inl q) ↦ inr (inr (inl (ap (λ x. x.0) q)))
      | inr (inr (inl q)) ↦ inr (inr (inr (inl (sym same ∙ ap (λ x. x.0) q))))
      | inr (inr (inr j)) ↦ absurd j
    ]
parts-Covered ev seq none none h = tt

-- Every index entry that an append writes for an event has its key among the keys that a prune
-- deletes for the event as it reads it back from the log, unless the event's time is not the zero
-- time and yet has the UnixNano 0.
pub index_event-event_keys :
    (ev : Event) (seq : ℕ) (entries : List (Str × Str)) (entry : Str × Str)
    → is_epoch (time_of_event ev) ≡ false
    → index_event ev seq ≡ some entries
    → In entry entries
    → In entry.0 (event_keys (read_back ev) seq)
unfolding index_event event_keys
index_event-event_keys ev seq entries entry e h i = inr (
    subst (CoveredBy (key_parts seq (read_back ev).entity (read_back ev).relation)) h
      (parts-Covered ev seq ev.entity ev.relation e) entry i)
