-- ===== src/Change/Liveness.antt =====
-- The reference counting and the liveness promises of internal/change/engine.go.
use toise.Common.{
  is_empty, keep, ◌+◌, ◌*◌, ◌≤◌, ◌<◌, ◌≡◌, refl, ◌⊎◌, Bool, false, ◌&&◌, ◌||◌, not, none, some, [],
  ◌∷◌, arith, if◌then◌else◌, ltb, leb, nat_eq, Str, str_Eq, ◌==◌,
}
use toise.Common.Dict.{get-keep, remove-Distinct, Distinct, Dict, get, put, remove, get-remove}
use toise.Model.Event.{Time, Duration}
use toise.Change.RefKey.{ref_key, speaker}
use toise.Change.State.{LiveRef, Speakers, Refs, BadPromise}

-- 7 * 24 * time.Hour
abbrev pub max_plausible_liveness_promise : Duration
max_plausible_liveness_promise = 7 * 24 * 3600 * 1000000000

abbrev pub zero_ref : LiveRef
zero_ref = record { deadline = 0; interval = 0; legacy = false }

-- The interval that is honoured.
unfoldable pub promised : Duration → Duration
promised declared = if leb declared max_plausible_liveness_promise then declared else 0

-- The record of refused promises: a relation passes no id.
unfoldable pub note_promise : Dict Str BadPromise → Str → Str → Duration → Dict Str BadPromise
note_promise bad id producer declared =
    if id == []
    then bad
    else if leb declared max_plausible_liveness_promise
    then remove bad id
    else put bad id (record { declared = declared; producer = producer })

-- The reference that an observation arms.
unfoldable pub arm : Time → Duration → LiveRef → LiveRef
unfolding promised
arm now declared otherwise =
    if ltb 0 (promised declared)
    then record { deadline = now + promised declared; interval = promised declared; legacy = false }
    else otherwise

abbrev pub speakers_of : Refs → Str → Speakers
speakers_of refs id = elim (get refs id) [ none ↦ [] | some s ↦ s ]

-- An edge with no promise of its own takes its speaker's deadline on the source.
unfoldable pub inherited_ref : Refs → Str → Str → LiveRef
inherited_ref refs from key = elim (get (speakers_of refs from) key) [
  | none ↦ zero_ref
  | some ref ↦ record { deadline = ref.deadline; interval = ref.interval; legacy = false }
]

-- A legacy reference of the producer: its method is unknowable.
abbrev pub is_legacy_of : Str → Str × LiveRef → Bool
is_legacy_of producer entry = entry.1.legacy && (speaker entry.0).0 == producer

unfoldable pub release_speaker : Speakers → Str → Str → Speakers
release_speaker refs producer scope =
    keep (λ entry. not (is_legacy_of producer entry)) (remove refs (ref_key producer scope))

-- A reference has lapsed: its deadline is set and past.
abbrev pub is_lapsed : Time → LiveRef → Bool
is_lapsed now ref = not (nat_eq ref.deadline 0) && ltb ref.deadline now

-- The inner loop of the sweep.
unfoldable pub drop_lapsed : Time → Speakers → Speakers
drop_lapsed now refs = keep (λ entry. not (is_lapsed now entry.1)) refs

unfoldable pub floor_deadline : Time → Duration → Time → Time
floor_deadline deadline interval now =
    if nat_eq deadline 0 || nat_eq interval 0
    then deadline
    else if ltb deadline (now + interval)
    then now + interval
    else deadline

-- The coarsest declared interval; 0 means that none was declared.
unfoldable pub liveness_interval : Speakers → Duration
liveness_interval [] = 0
liveness_interval ((key, ref) ∷ refs) =
    let rest = liveness_interval refs in if ltb rest ref.interval then ref.interval else rest

-- A retraction releases the reference of its own speaker and the legacy references of its
-- producer; every other speaker's reference stays as it was.
pub get-release_speaker :
    (refs : Speakers) (producer scope key : Str)
    → Distinct refs
    → get (release_speaker refs producer scope) key ≡ (
        if ref_key producer scope == key then none else elim (get refs key) [
          | none ↦ none
          | some ref ↦ if is_legacy_of producer (key, ref) then none else some ref
        ])
unfolding release_speaker
get-release_speaker refs producer scope key h =
    let own = ref_key producer scope in
    ground (
      arith,
      get-keep (λ (entry : Str × LiveRef). not (is_legacy_of producer entry)) (remove refs own) key
          (remove-Distinct refs own h),
      get-remove refs own key,
    )

-- A sweep drops the lapsed references and leaves the others as they were.
pub get-drop_lapsed :
    (now : Time) (refs : Speakers) (key : Str)
    → Distinct refs
    → get (drop_lapsed now refs) key ≡ elim (get refs key) [
      | none ↦ none
      | some ref ↦ if is_lapsed now ref then none else some ref
    ]
unfolding drop_lapsed
get-drop_lapsed now refs key h =
    ground (arith, get-keep (λ (entry : Str × LiveRef). not (is_lapsed now entry.1)) refs key h)

-- An armed reference with a plausible promise holds for exactly the declared interval, one with an
-- implausible promise is the fallback, and no promise reaches further than a week.
pub arm_window :
    (now t : Time) (declared : Duration) (otherwise : LiveRef)
    → (0 < declared
        → declared ≤ max_plausible_liveness_promise
        → is_lapsed t (arm now declared otherwise) ≡ ltb (now + declared) t)
      × (max_plausible_liveness_promise < declared → arm now declared otherwise ≡ otherwise)
      × ((arm now declared otherwise ≡ otherwise)
          ⊎ ((arm now declared otherwise).deadline ≤ now + max_plausible_liveness_promise))
unfolding arm promised
arm_window now t declared otherwise = (λ p q. ground arith, λ p. ground arith, ground arith)

-- A restored deadline never moves back, and the reference outlives the restart by its interval;
-- only a zero deadline or an unknown interval is exempt, and left alone.
pub floor_deadline_lem :
    (deadline : Time) (interval : Duration) (now : Time)
    → (deadline ≤ floor_deadline deadline interval now)
      × ((now + interval ≤ floor_deadline deadline interval now)
          ⊎ (((deadline ≡ 0) ⊎ (interval ≡ 0)) × (floor_deadline deadline interval now ≡ deadline)))
unfolding floor_deadline
floor_deadline_lem deadline interval now = (ground arith, ground arith)

-- The published interval is at least the interval of every reference.
pub liveness_interval-max :
    (refs : Speakers) (key : Str) (ref : LiveRef)
    → get refs key ≡ some ref
    → ref.interval ≤ liveness_interval refs
unfolding liveness_interval get
liveness_interval-max [] key ref h = cc
liveness_interval-max ((j, r) ∷ refs) key ref h = ground (arith, liveness_interval-max refs key ref)

pub holds-not_empty :
    (left : Speakers) (key : Str) (ref : LiveRef) → get left key ≡ some ref → is_empty left ≡ false
unfolding get
holds-not_empty [] key ref h = cc
holds-not_empty (entry ∷ left) key ref h = refl
