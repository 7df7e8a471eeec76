-- ===== src/Store/Laws.antt =====
-- The append of internal/store/store.go: what one that succeeds leaves, and when one
-- succeeds.
use toise.Common.{
  all, is_some, ◌&&◌, subst, Option, Option-cases, inl, inr, ℕ, suc, ◌+◌, ◌≤◌, ◌≡◌, refl, ap, ◌∙◌,
  sym, Bool, true, false, not, List, [], ◌∷◌, ◌++◌, arith, ltb, nat_eq, length, keep, map,
  append-nil, some, none,
}
use toise.Store.{
  Store, Appended, appended, refused, first_invalid, encodes, stamp, stamp_parts, number_events,
  events_of, append, scan_from, write,
}
use toise.Model.Event.{Event, EntityEvent, RelationEvent}
use toise.Model.Validate.{validate_envelope}
use toise.Store.Retention.Delete.{Rising, Rising-le, Rising-lower}

-- The sequence numbers of the log rise, up to that of the last append. Prunes and coalesced
-- heartbeats may have left gaps.
abbrev pub IsSequential : Store → Type 0
IsSequential s = Rising 0 s.log s.seq

-- Events under consecutive sequence numbers.
abbrev pub numbered : ℕ → List Event → List (ℕ × Event)
numbered seq [] = []
numbered seq (ev ∷ evs) = (suc seq, ev) ∷ numbered (suc seq) evs

-- Whether the event carries that number as the one of its commit.
abbrev has_commit : ℕ → Option EntityEvent → Option RelationEvent → Bool
has_commit n (some ee) re = nat_eq ee.commit_seq n
has_commit n none (some re) = nat_eq re.commit_seq n
has_commit n none none = true

abbrev pub is_committed : ℕ → Event → Bool
is_committed n ev = has_commit n ev.entity ev.relation

Rising-join :
    (start mid end : ℕ) (xs ys : List (ℕ × Event))
    → Rising start xs mid
    → Rising mid ys end
    → Rising start (xs ++ ys) end
Rising-join start mid end [] ys h k = Rising-lower start mid end ys h k
Rising-join start mid end (e ∷ xs) ys h k = (h.0, Rising-join e.0 mid end xs ys h.1 k)

numbered-Rising : (seq : ℕ) (evs : List Event) → Rising seq (numbered seq evs) (seq + length evs)
numbered-Rising seq [] = omega arith
numbered-Rising seq (ev ∷ evs) = (
  omega arith,
  subst (Rising (suc seq) (numbered (suc seq) evs)) (omega arith) (numbered-Rising (suc seq) evs),
)

-- Nothing past the end of the log, everything of what follows it.
keep-after :
    (start end after : ℕ) (log : List (ℕ × Event))
    → Rising start log end
    → end ≤ after
    → keep (λ entry. ltb after entry.0) log ≡ []
keep-after start end after [] h le = refl
keep-after start end after (e ∷ log) h le =
    ground (arith, keep-after e.0 end after log h.1 le, Rising-le e.0 end log h.1)

keep-before :
    (start end after : ℕ) (log : List (ℕ × Event))
    → Rising start log end
    → after ≤ start
    → keep (λ entry. ltb after entry.0) log ≡ log
keep-before start end after [] h le = refl
keep-before start end after (e ∷ log) h le =
    ground (arith, keep-before e.0 end after log h.1 (omega (arith, h.0, le)), h.0)

keep-append :
    (p : ℕ × Event → Bool) (xs ys : List (ℕ × Event)) → keep p (xs ++ ys) ≡ keep p xs ++ keep p ys
keep-append p [] ys = refl
keep-append p (x ∷ xs) ys = ground (arith, keep-append p xs ys)

stamp_parts-committed :
    (n : ℕ) (ev : Event) (oe : Option EntityEvent) (or : Option RelationEvent)
    → ev.entity ≡ oe
    → ev.relation ≡ or
    → is_committed n (stamp_parts n ev oe or) ≡ true
unfolding stamp_parts
stamp_parts-committed n ev (some ee) or p q = ground arith
stamp_parts-committed n ev none (some re) p q = rw p (ground arith)
stamp_parts-committed n ev none none p q = rw (p, q) refl

stamp-committed : (n : ℕ) (ev : Event) → is_committed n (stamp n ev) ≡ true
unfolding stamp
stamp-committed n ev = stamp_parts-committed n ev ev.entity ev.relation refl refl

pub stamp-entity :
    (n : ℕ) (ev : Event) (ee : EntityEvent)
    → ev.entity ≡ some ee
    → (stamp n ev).entity ≡ some (record ee { commit_seq = n })
unfolding stamp stamp_parts
stamp-entity n ev ee p = rw p refl

all-committed : (n : ℕ) (evs : List Event) → all (is_committed n) (map (stamp n) evs) ≡ true
all-committed n [] = refl
all-committed n (ev ∷ evs) = ground (arith, stamp-committed n ev, all-committed n evs)

number_events_lem :
    (commit_seq seq : ℕ) (evs : List Event)
    → number_events commit_seq seq evs ≡ numbered seq (map (stamp commit_seq) evs)
unfolding number_events
number_events_lem commit_seq seq [] = refl
number_events_lem commit_seq seq (ev ∷ evs) =
    ap (◌∷◌ (suc seq, stamp commit_seq ev)) (number_events_lem commit_seq (suc seq) evs)

pub events_of-numbered : (seq : ℕ) (evs : List Event) → events_of (numbered seq evs) ≡ evs
events_of-numbered seq [] = refl
events_of-numbered seq (ev ∷ evs) = ap (◌∷◌ ev) (events_of-numbered (suc seq) evs)

length-map : (n : ℕ) (evs : List Event) → length (map (stamp n) evs) ≡ length evs
length-map n [] = refl
length-map n (ev ∷ evs) = ap suc (length-map n evs)

-- What a successful append of `evs` leaves: `out`, which is those events, each stamped with the
-- sequence number of the first, stands at the end of the log under the next sequence numbers. These
-- still rise, and a tail scan from the old sequence gives exactly the new entries.
pub record Grown (s s' : Store) (evs out : List Event) : Type 0 where
  pub sequential : IsSequential s'
  pub stamped : out ≡ map (stamp (suc s.seq)) evs
  pub committed : all (is_committed (suc s.seq)) out ≡ true
  pub log : s'.log ≡ s.log ++ numbered s.seq out
  pub tail : scan_from s' s.seq ≡ numbered s.seq out
  pub size : s'.seq ≡ s.seq + length evs

written : Store → List Event → Store
written s evs = record s {
  log = s.log ++ number_events (suc s.seq) s.seq evs;
  seq = s.seq + length evs;
}

written-Grown :
    (s : Store) (evs : List Event)
    → IsSequential s
    → Grown s (written s evs) evs (events_of (number_events (suc s.seq) s.seq evs))
unfolding scan_from written
written-Grown s evs q =
    let out = map (stamp (suc s.seq)) evs in
    let same = number_events_lem (suc s.seq) s.seq evs in
    let stamped : events_of (number_events (suc s.seq) s.seq evs) ≡ out =
      ap events_of same ∙ events_of-numbered s.seq out in
    let fresh : Rising s.seq (numbered s.seq out) (s.seq + length evs) =
      subst (λ n. Rising s.seq (numbered s.seq out) (s.seq + n)) (length-map (suc s.seq) evs)
        (numbered-Rising s.seq out) in
    record {
      sequential =
          subst (λ new. Rising 0 (s.log ++ new) (s.seq + length evs)) (sym same)
            (Rising-join 0 s.seq (s.seq + length evs) s.log (numbered s.seq out) q fresh);
      stamped = stamped;
      committed = rw stamped (all-committed (suc s.seq) evs);
      log = rw (stamped, same) refl;
      tail = rw (
        stamped,
        same,
        keep-append (λ entry. ltb s.seq entry.0) s.log (numbered s.seq out),
        keep-after 0 s.seq s.seq s.log q (omega arith),
        keep-before s.seq (s.seq + length evs) s.seq (numbered s.seq out) fresh (omega arith),
      );
      size = refl;
    }

pub nothing-Grown : (s : Store) → IsSequential s → Grown s s [] []
unfolding scan_from
nothing-Grown s q = record {
  sequential = q;
  stamped = refl;
  committed = refl;
  log = rw append-nil;
  tail = rw (keep-after 0 s.seq s.seq s.log q (omega arith));
  size = omega arith;
}

abbrev Ensures : Store → List Event → Appended → Type 0
Ensures s evs (appended s' out) = Grown s s' evs out
Ensures s evs (refused e) = Unit

append-Ensures :
    (disk : Bool) (s : Store) (evs : List Event)
    → IsSequential s
    → Ensures s evs (append disk s evs)
unfolding append written
append-Ensures disk s [] q = nothing-Grown s q
append-Ensures true s (ev ∷ evs) q =
    elim (Option-cases (first_invalid (encodes s) (not s.accept_unknown_types) 0 (ev ∷ evs))) [
      | inl e ↦ rw (e, append) (written-Grown s (ev ∷ evs) q)
      | inr (bad, e) ↦ rw (e, Ensures, append) tt
    ]
append-Ensures false s (ev ∷ evs) q =
    elim (Option-cases (first_invalid (encodes s) (not s.accept_unknown_types) 0 (ev ∷ evs))) [
      | inl e ↦ rw (e, Ensures, append) tt
      | inr (bad, e) ↦ rw (e, Ensures, append) tt
    ]

-- A successful append to a log whose sequence numbers rise puts the given events, each stamped with
-- the number of the first of them as its commit, at the end of the log under the next sequence
-- numbers, and nothing else: the numbers still rise, and a tail scan from the old sequence gives
-- exactly the new entries.
pub append-Grown :
    (disk : Bool) (s s' : Store) (evs out : List Event)
    → IsSequential s
    → append disk s evs ≡ appended s' out
    → Grown s s' evs out
append-Grown disk s s' evs out q h = subst (Ensures s evs) h (append-Ensures disk s evs q)

pub append-length :
    (disk : Bool) (s s' : Store) (evs out : List Event)
    → IsSequential s
    → append disk s evs ≡ appended s' out
    → length out ≡ length evs
append-length disk s s' evs out q h =
    ap length (append-Grown disk s s' evs out q h).stamped ∙ length-map (suc s.seq) evs

abbrev pub is_appended : Appended → Bool
is_appended (appended s out) = true
is_appended (refused e) = false

abbrev pub is_valid_event : Store → Event → Bool
is_valid_event s ev =
    not (is_some (validate_envelope (not s.accept_unknown_types) ev)) && encodes s ev

first_invalid-all :
    (s : Store) (i : ℕ) (evs : List Event)
    → is_some (first_invalid (encodes s) (not s.accept_unknown_types) i evs)
      ≡ not (all (is_valid_event s) evs)
unfolding first_invalid
first_invalid-all s i [] = refl
first_invalid-all s i (ev ∷ evs) = ground (arith, first_invalid-all s (suc i) evs)

-- An append of at least one event succeeds exactly when the disk commits, every event of it
-- validates and proto.Marshal accepts every event as stamped: one bad event refuses the whole
-- append.
pub append-succeeds :
    (disk : Bool) (s : Store) (ev : Event) (evs : List Event)
    → is_appended (append disk s (ev ∷ evs)) ≡ disk && all (is_valid_event s) (ev ∷ evs)
unfolding append write
append-succeeds true s ev evs = ground (arith, first_invalid-all s 0 (ev ∷ evs))
append-succeeds false s ev evs = ground (arith, first_invalid-all s 0 (ev ∷ evs))
