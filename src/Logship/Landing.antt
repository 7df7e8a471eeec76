-- ===== src/Logship/Landing.antt =====
-- What a landed segment does to a sink that holds a chain.
use toise.Logship.{
  Shipper, parse_segment_name, segments, is_segment, insert_listed, in_lexical_order,
}
use toise.Model.Value.{str_lt}
use toise.Common.{
  ℕ, ◌<◌, ◌^◌, true, false, ◌≡◌, refl, sym, ap, subst, ◌∙◌, inl, inr, some, List, [], ◌∷◌, arith,
  Str, str_Eq, str_eq, str_eq_iff, map, keep, Bool-cases, In, In-keep, In-left, In-right, In-append,
  ◌++◌,
}
use toise.Common.Dict.{Dict, get, put, has, remove_absent, get-put_same, get-put_other}
use toise.Store.Snapshot.{Codec, event_frames}
use toise.Store.Snapshot.RoundTrip.{AllCoded}
use toise.Logship.Names.{is_segment-segment_name}
use toise.Logship.Chain.{Segment, name_of, IsChain, AreStored, Points, IsShipped, Lists, parsed}

abbrev keys : Dict Str Str → List Str
keys objects = map (λ object. object.0) objects

has-In : (objects : Dict Str Str) (k : Str) → has objects k ≡ true → In k (keys objects)
unfolding get
has-In [] k h = absurd cc
has-In ((j, v) ∷ objects) k h = elim (Bool-cases (str_eq j k)) [
  | inl b ↦ inl ((str_eq_iff j k).0 b)
  | inr b ↦ inr (has-In objects k (ground (arith, h, b)))
]

insert_listed-split :
    (n : Str) (names : List Str)
    → (xs : List Str) × (ys : List Str) × (insert_listed n names ≡ xs ++ n ∷ ys)
      × (xs ++ ys ≡ names)
unfolding insert_listed
insert_listed-split n [] = ([], [], refl, refl)
insert_listed-split n (m ∷ names) = elim (Bool-cases (str_lt m n)) [
  | inl b ↦
      let (xs, ys, split, whole) = insert_listed-split n names in
      (m ∷ xs, ys, rw b (ap (λ l. m ∷ l) split), ap (λ l. m ∷ l) whole)
  | inr b ↦ ([], m ∷ names, rw b refl, refl)
]

In-insert_listed : (x n : Str) (names : List Str) → In x (n ∷ names) → In x (insert_listed n names)
In-insert_listed x n names i =
    let (xs, ys, split, whole) = insert_listed-split n names in
    subst (In x) (sym split) (elim i [
      | inl q ↦ In-right x xs (n ∷ ys) (inl q)
      | inr j ↦ elim (In-append x xs ys (subst (In x) (sym whole) j)) [
        | inl k ↦ In-left x xs (n ∷ ys) k
        | inr k ↦ In-right x xs (n ∷ ys) (inr k)
      ]
    ])

In-in_lexical_order : (x : Str) (names : List Str) → In x names → In x (in_lexical_order names)
unfolding in_lexical_order
In-in_lexical_order x [] i = absurd i
In-in_lexical_order x (n ∷ names) (inl q) = In-insert_listed x n (in_lexical_order names) (inl q)
In-in_lexical_order x (n ∷ names) (inr i) =
    In-insert_listed x n (in_lexical_order names) (inr (In-in_lexical_order x names i))

module _ ⦃codec : Codec⦄ where
  -- No segment of a chain has the name of one that ends behind it.
  chain-fresh :
      (tenant : Str) (chain : List Segment) (end : ℕ) (s : Segment)
      → IsChain chain end
      → s.from < s.to
      → s.to < 2 ^ 64
      → end < s.to
      → In (name_of tenant s) (map (name_of tenant) chain)
      → ⊥
  chain-fresh tenant [] end s c f l h i = absurd i
  chain-fresh tenant (x ∷ older) end s c f l h (inl q) =
      let (top, less, fits, coded, rest) = c in
      let same : some (x.from, x.to) ≡ some (s.from, s.to) =
        sym (parsed tenant x less fits) ∙ ap parse_segment_name q ∙ parsed tenant s f l in
      ground (arith, same, top, h)
  chain-fresh tenant (x ∷ older) end s c f l h (inr i) =
      let (top, less, fits, coded, rest) = c in
      chain-fresh tenant older x.from s rest f l (omega (arith, top, less, h)) i

  AreStored-put :
      (objects : Dict Str Str) (tenant name content : Str) (chain : List Segment)
      → has objects name ≡ false
      → AreStored objects tenant chain
      → AreStored (put objects name content) tenant chain
  AreStored-put objects tenant name content [] n h = tt
  AreStored-put objects tenant name content (s ∷ older) n h = (
    get-put_other objects name (name_of tenant s) content (event_frames s.events) n h.0,
    AreStored-put objects tenant name content older n h.1,
  )

  insert_listed-Lists :
      (tenant : Str) (chain : List Segment) (s : Segment) (names : List Str)
      → Lists tenant names chain
      → Lists tenant (insert_listed (name_of tenant s) names) (s ∷ chain)
  insert_listed-Lists tenant chain s names k =
      let (xs, ys, split, whole) = insert_listed-split (name_of tenant s) names in
      (xs, ys, split, subst (λ l. Lists tenant l chain) (sym whole) k)

  Lists-In :
      (tenant x : Str) (chain : List Segment) (names : List Str)
      → Lists tenant names chain
      → In x names
      → In x (map (name_of tenant) chain)
  Lists-In tenant x [] names k i = subst (In x) k i
  Lists-In tenant x (s ∷ older) names (xs, ys, split, k) i =
      elim (In-append x xs (name_of tenant s ∷ ys) (subst (In x) split i)) [
        | inl j ↦ inr (Lists-In tenant x older (xs ++ ys) k (In-left x xs ys j))
        | inr (inl q) ↦ inl q
        | inr (inr j) ↦ inr (Lists-In tenant x older (xs ++ ys) k (In-right x xs ys j))
      ]

  segments-put :
      (objects : Dict Str Str) (tenant name content : Str)
      → has objects name ≡ false
      → is_segment tenant name ≡ true
      → segments (put objects name content) tenant ≡ insert_listed name (segments objects tenant)
  unfolding segments in_lexical_order put
  segments-put objects tenant name content n h = rw h (
      ap (λ d. insert_listed name (in_lexical_order (keep (is_segment tenant) (keys d))))
        (remove_absent objects name n))

  name-absent :
      (sh : Shipper) (tenant : Str) (chain : List Segment) (end : ℕ) (s : Segment)
      → IsShipped sh tenant chain end
      → s.from < s.to
      → s.to < 2 ^ 64
      → end < s.to
      → has sh.objects (name_of tenant s) ≡ false
  unfolding segments
  name-absent sh tenant chain end s h f l n =
      elim (Bool-cases (has sh.objects (name_of tenant s))) [
        | inl b ↦
            let i =
              In-keep (is_segment tenant) (name_of tenant s) (keys sh.objects)
                (has-In sh.objects (name_of tenant s) b)
                (is_segment-segment_name tenant s.from s.to) in
            absurd (
              chain-fresh tenant chain end s h.linked f l n (
                Lists-In tenant (name_of tenant s) chain (segments sh.objects tenant) h.listed
                  (In-in_lexical_order (name_of tenant s) _ i)))
        | inr b ↦ b
      ]

  -- The sink and the cursor once the segment is in the sink.
  pub landed-IsShipped :
      (sh : Shipper) (tenant : Str) (chain : List Segment) (end : ℕ) (s : Segment)
      (cursor : Dict Str ℕ)
      → IsShipped sh tenant chain end
      → s.from ≡ end
      → s.from < s.to
      → s.to < 2 ^ 64
      → AllCoded s.events
      → Points (get cursor tenant) s.to
      → IsShipped
          (record {
            objects = put sh.objects (name_of tenant s) (event_frames s.events);
            cursor = cursor;
          })
          tenant
          (s ∷ chain)
          s.to
  landed-IsShipped sh tenant chain end s cursor h e f l c p =
      let name = name_of tenant s in
      let segment = is_segment-segment_name tenant s.from s.to in
      let absent : has sh.objects name ≡ false =
        name-absent sh tenant chain end s h f l (omega (arith, e, f)) in
      record {
        linked = (refl, f, l, c, subst (IsChain chain) (sym e) h.linked);
        listed =
            subst (λ names. Lists tenant names (s ∷ chain))
              (sym (segments-put sh.objects tenant name (event_frames s.events) absent segment))
              (insert_listed-Lists tenant chain s (segments sh.objects tenant) h.listed);
        stored = (
          get-put_same sh.objects name (event_frames s.events),
          AreStored-put sh.objects tenant name (event_frames s.events) chain absent h.stored,
        );
        cached = p;
      }

  -- The rest of the state is the same.
  pub cursor-IsShipped :
      (sh : Shipper) (tenant : Str) (chain : List Segment) (end : ℕ) (cursor : Dict Str ℕ)
      → IsShipped sh tenant chain end
      → Points (get cursor tenant) end
      → IsShipped (record sh { cursor = cursor }) tenant chain end
  cursor-IsShipped sh tenant chain end cursor h p = record {
    linked = h.linked;
    listed = h.listed;
    stored = h.stored;
    cached = p;
  }
