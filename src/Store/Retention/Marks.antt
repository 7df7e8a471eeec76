-- ===== src/Store/Retention/Marks.antt =====
-- What the first pass of PruneOlderThan finds: the last entry of each subject.
use toise.Common.{
  ℕ, Bool, ◌≡◌, refl, arith, false, ◌||◌, ◌&&◌, ◌∙◌, ap, Bool-cases, inl, inr, Option, none, some,
  List, [], ◌∷◌, ◌++◌, if◌then◌else◌, leb, any, ◌==◌,
}
use toise.Common.Dict.{get, put, Distinct, put-Distinct, get-put}
use toise.Model.Event.{Event, Time}
use toise.Store.Retention.{
  Subject, subject, subject_Eq, Last, Lasts, was_born, note_last, note_as, last_at, scan_lasts,
  is_alive, event_time_of, same_subject_lem,
}

abbrev pub Entry : Type 0
Entry = ℕ × Event

abbrev pub about_subject : Subject → Option Subject → Bool
about_subject s none = false
about_subject s (some t) = t == s

abbrev pub is_about : Subject → Entry → Bool
is_about s entry = about_subject s (subject entry.1)

abbrev pub or_else : Option Entry → Option Entry → Option Entry
or_else (some e) f = some e
or_else none f = f

-- The last entry of the log about a subject.
abbrev pub last_entry : Subject → List Entry → Option Entry
last_entry s [] = none
last_entry s (e ∷ log) = or_else (last_entry s log) (if is_about s e then some e else none)

pub last_entry-append :
    (s : Subject) (xs ys : List Entry)
    → last_entry s (xs ++ ys) ≡ or_else (last_entry s ys) (last_entry s xs)
last_entry-append s [] ys = ground arith
last_entry-append s (e ∷ xs) ys = ground (arith, last_entry-append s xs ys)

abbrev pub last_of : Option Last → Option Entry
last_of none = none
last_of (some l) = some (l.seq, l.event)

last-note_as :
    (cutoff : Time) (m : Lasts) (e : Entry) (s : Subject) (o : Option Subject)
    → last_of (get (note_as cutoff m e o) s)
      ≡ (if about_subject s o then some e else last_of (get m s))
last-note_as cutoff m e s none = refl
last-note_as cutoff m e s (some t) = ground (arith, get-put m t s (last_at cutoff (get m t) e))

pub last-scan_lasts :
    (cutoff : Time) (m : Lasts) (log : List Entry) (s : Subject)
    → last_of (get (scan_lasts cutoff m log) s) ≡ or_else (last_entry s log) (last_of (get m s))
unfolding scan_lasts note_last
last-scan_lasts cutoff m [] s = refl
last-scan_lasts cutoff m (e ∷ log) s = ground (
  arith,
  last-scan_lasts cutoff (note_last cutoff m e) log s,
  last-note_as cutoff m e s (subject e.1),
)

-- What every entry of the maps says of its event.
pub record Describes (s : Subject) (l : Last) : Type 0 where
  pub alive : l.alive ≡ is_alive l.event
  pub nano : l.nano ≡ event_time_of l.event
  pub about : subject l.event ≡ some s

abbrev pub MarksOf : Subject → Option Last → Type 0
MarksOf s none = Unit
MarksOf s (some l) = Describes s l

pub record Marked (m : Lasts) : Type 0 where
  pub distinct : Distinct m
  pub marks : (s : Subject) → MarksOf s (get m s)

put-marks :
    (cutoff : Time) (m : Lasts) (e : Entry) (t s : Subject)
    → subject e.1 ≡ some t
    → MarksOf s (get m s)
    → MarksOf s (get (put m t (last_at cutoff (get m t) e)) s)
put-marks cutoff m e t s q h = elim (Bool-cases (t == s)) [
  | inl b ↦
      rw (get-put m t s (last_at cutoff (get m t) e), b)
        (record { alive = refl; nano = refl; about = q ∙ ap some ((same_subject_lem t s).0 b) })
  | inr b ↦ rw (get-put m t s (last_at cutoff (get m t) e), b) h
]

note_as-Marked :
    (cutoff : Time) (m : Lasts) (e : Entry) (o : Option Subject)
    → subject e.1 ≡ o
    → Marked m
    → Marked (note_as cutoff m e o)
note_as-Marked cutoff m e none q h = h
note_as-Marked cutoff m e (some t) q h = record {
  distinct = put-Distinct m t (last_at cutoff (get m t) e) h.distinct;
  marks = λ s. put-marks cutoff m e t s q (h.marks s);
}

pub scan_lasts-Marked :
    (cutoff : Time) (m : Lasts) (log : List Entry) → Marked m → Marked (scan_lasts cutoff m log)
unfolding scan_lasts note_last
scan_lasts-Marked cutoff m [] h = h
scan_lasts-Marked cutoff m (e ∷ log) h =
    scan_lasts-Marked cutoff (note_last cutoff m e) log
      (note_as-Marked cutoff m e (subject e.1) refl h)

-- It was born before the cutoff when some event about it is that old.
abbrev pub is_old : Time → Subject → Entry → Bool
is_old cutoff s e = is_about s e && leb (event_time_of e.1) cutoff

born-note_as :
    (cutoff : Time) (m : Lasts) (e : Entry) (s : Subject) (o : Option Subject)
    → was_born (get (note_as cutoff m e o) s)
      ≡ (was_born (get m s) || (about_subject s o && leb (event_time_of e.1) cutoff))
born-note_as cutoff m e s none = ground arith
born-note_as cutoff m e s (some t) =
    ground (arith, get-put m t s (last_at cutoff (get m t) e), same_subject_lem t s)

pub born-scan_lasts :
    (cutoff : Time) (m : Lasts) (log : List Entry) (s : Subject)
    → was_born (get (scan_lasts cutoff m log) s) ≡ (was_born (get m s) || any (is_old cutoff s) log)
unfolding scan_lasts note_last
born-scan_lasts cutoff m [] s = ground arith
born-scan_lasts cutoff m (e ∷ log) s = ground (
  arith,
  born-scan_lasts cutoff (note_last cutoff m e) log s,
  born-note_as cutoff m e s (subject e.1),
)
