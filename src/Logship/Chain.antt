-- ===== src/Logship/Chain.antt =====
-- internal/logship/shipper.go: a sink that holds a chain of segments, in whatever order it lists
-- them, and the cursor that is derived from it.
use toise.Common.{
  ℕ, ◌<◌, ◌≤◌, ◌^◌, ◌≡◌, refl, sym, ap, ◌∙◌, Option, none, some, List, [], ◌∷◌, ◌++◌, arith, Str,
  str_Eq,
}
use toise.Common.Dict.{Dict, get}
use toise.Model.Event.{Event}
use toise.Store.Snapshot.{Codec, event_frames}
use toise.Store.Snapshot.RoundTrip.{AllCoded}
use toise.Logship.{
  cursor_or, Shipper, segment_name, parse_segment_name, segments, raised, max_seq, last_shipped,
}
use toise.Logship.Names.{parse_segment_name-segment_name}

-- Where a segment begins and ends, and its events.
pub record Segment : Type 0 where
  pub from : ℕ
  pub to : ℕ
  pub events : List Event

abbrev pub name_of : Str → Segment → Str
name_of tenant s = segment_name tenant s.from s.to

-- The events of a chain that is given from its newest segment down.
abbrev pub events_up : List Segment → List Event
events_up [] = []
events_up (s ∷ older) = events_up older ++ s.events

abbrev pub names_up : Str → List Segment → List Str
names_up tenant [] = []
names_up tenant (s ∷ older) = names_up tenant older ++ name_of tenant s ∷ []

module _ ⦃codec : Codec⦄ where
  -- Each segment begins where the older one ended, the oldest at 0.
  abbrev pub IsChain : List Segment → ℕ → Type 0
  IsChain [] end = end ≡ 0
  IsChain (s ∷ older) end =
      (s.to ≡ end) × (s.from < s.to) × (s.to < 2 ^ 64) × AllCoded s.events × IsChain older s.from

  abbrev pub AreStored : Dict Str Str → Str → List Segment → Type 0
  AreStored objects tenant [] = Unit
  AreStored objects tenant (s ∷ older) =
      (get objects (name_of tenant s) ≡ some (event_frames s.events))
      × AreStored objects tenant older

  -- The names are those of the chain, in whatever order.
  abbrev pub Lists : Str → List Str → List Segment → Type 0
  Lists tenant names [] = names ≡ []
  Lists tenant names (s ∷ older) =
      (xs : List Str) × (ys : List Str) × (names ≡ xs ++ name_of tenant s ∷ ys)
      × Lists tenant (xs ++ ys) older

  abbrev pub Points : Option ℕ → ℕ → Type 0
  Points none end = Unit
  Points (some n) end = n ≡ end

  -- The sink holds the chain and nothing else of the tenant, and a cached cursor is its end.
  pub record IsShipped (sh : Shipper) (tenant : Str) (chain : List Segment) (end : ℕ) : Type 0 where
    pub linked : IsChain chain end
    pub listed : Lists tenant (segments sh.objects tenant) chain
    pub stored : AreStored sh.objects tenant chain
    pub cached : Points (get sh.cursor tenant) end

  pub parsed :
      (tenant : Str) (s : Segment)
      → s.from < s.to
      → s.to < 2 ^ 64
      → parse_segment_name (name_of tenant s) ≡ some (s.from, s.to)
  parsed tenant s h k = parse_segment_name-segment_name tenant s.from s.to (omega arith) k

  raised_comm : (n : ℕ) (a b : Option (ℕ × ℕ)) → raised (raised n a) b ≡ raised (raised n b) a
  raised_comm n none b = refl
  raised_comm n (some a) none = refl
  raised_comm n (some (f, t)) (some (g, u)) = ground arith

  -- The order of the names does not matter to their highest end.
  max_seq-append :
      (n : ℕ) (x : Str) (xs ys : List Str)
      → max_seq n (xs ++ x ∷ ys) ≡ max_seq (raised n (parse_segment_name x)) (xs ++ ys)
  unfolding max_seq
  max_seq-append n x [] ys = refl
  max_seq-append n x (z ∷ xs) ys =
      max_seq-append (raised n (parse_segment_name z)) x xs ys
      ∙ ap (λ m. max_seq m (xs ++ ys)) (raised_comm n (parse_segment_name z) (parse_segment_name x))

  max_seq-newest :
      (tenant : Str) (s : Segment) (n : ℕ) (xs ys : List Str)
      → s.from < s.to
      → s.to < 2 ^ 64
      → max_seq n (xs ++ name_of tenant s ∷ ys)
        ≡ max_seq (raised n (some (s.from, s.to))) (xs ++ ys)
  max_seq-newest tenant s n xs ys less fits =
      max_seq-append n (name_of tenant s) xs ys
      ∙ ap (λ o. max_seq (raised n o) (xs ++ ys)) (parsed tenant s less fits)

  max_seq-chain :
      (tenant : Str) (chain : List Segment) (names : List Str) (end n : ℕ)
      → IsChain chain end
      → Lists tenant names chain
      → end ≤ n
      → max_seq n names ≡ n
  unfolding max_seq
  max_seq-chain tenant [] names end n c k h = ap (max_seq n) k
  max_seq-chain tenant (s ∷ older) names end n c (xs, ys, split, k) h =
      let (top, less, fits, coded, rest) = c in
      let kept : raised n (some (s.from, s.to)) ≡ n = ground (arith, top, h) in
      ap (max_seq n) split
      ∙ max_seq-newest tenant s n xs ys less fits
      ∙ ap (λ m. max_seq m (xs ++ ys)) kept
      ∙ max_seq-chain tenant older (xs ++ ys) s.from n rest k (omega (arith, top, h, less))

  max_seq-top :
      (tenant : Str) (chain : List Segment) (names : List Str) (end : ℕ)
      → IsChain chain end
      → Lists tenant names chain
      → max_seq 0 names ≡ end
  unfolding max_seq
  max_seq-top tenant [] names end c k = ap (max_seq 0) k ∙ sym c
  max_seq-top tenant (s ∷ older) names end c (xs, ys, split, k) =
      let (top, less, fits, coded, rest) = c in
      let up : raised 0 (some (s.from, s.to)) ≡ s.to = ground (arith, less) in
      ap (max_seq 0) split
      ∙ max_seq-newest tenant s 0 xs ys less fits
      ∙ ap (λ m. max_seq m (xs ++ ys)) up
      ∙ max_seq-chain tenant older (xs ++ ys) s.from s.to rest k (omega (arith, less))
      ∙ top

  cursor_or_lem :
      (o : Option ℕ) (end derived : ℕ) → Points o end → derived ≡ end → cursor_or o derived ≡ end
  cursor_or_lem none end derived p d = d
  cursor_or_lem (some n) end derived p d = p

  pub last_shipped_lem :
      (sh : Shipper) (tenant : Str) (chain : List Segment) (end : ℕ)
      → IsShipped sh tenant chain end
      → last_shipped sh tenant ≡ end
  unfolding last_shipped
  last_shipped_lem sh tenant chain end h =
      let derived : max_seq 0 (segments sh.objects tenant) ≡ end =
        max_seq-top tenant chain (segments sh.objects tenant) end h.linked h.listed in
      cursor_or_lem (get sh.cursor tenant) end (max_seq 0 (segments sh.objects tenant)) h.cached
        derived
