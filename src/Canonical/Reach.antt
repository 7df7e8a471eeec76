-- ===== src/Canonical/Reach.antt =====
-- The walk of internal/canonical/canonical.go finds exactly what the believed edges reach.
use toise.Canonical.Distinct.{NoRepeat, NoRepeat-length}
use toise.Canonical.Visit.{Reach, start, hop, Inv, Led, visit_all-Inv}
use toise.Common.{
  ℕ, zero, suc, ◌+◌, ◌<◌, ◌≤◌, true, ◌≡◌, refl, sym, ap, subst, ◌∙◌, inl, inr, is_some, Option,
  none, some, List, [], ◌∷◌, ◌++◌, arith, Str, str_Eq, str_eq_iff, length, In, In-left, In-right,
  In-append, append_assoc, append-nil, length-append,
}
use toise.Common.Dict.{get, get-put, get-empty}
use toise.Model.Entity.{Relation}
use toise.Projection.Graph.{Set}
use toise.Canonical.{
  Walk, Link, other_end, visit_all, walk_loop, walk, initial, popped, answer, sort_links,
}

module _ (touching : Str → List Relation) (basis_of : Relation → Str) (threshold : ℕ)
    (root : Str) where
  abbrev Sound : List Str → Walk → Type 0
  Sound done w = Inv touching basis_of threshold root done w

  abbrev Leads : Str → List Relation → Walk → Type 0
  Leads cur rs w = Led touching basis_of threshold root cur rs w

  -- Every believed edge of an entity taken off the queue leads to a member.
  abbrev Closed : List Str → Walk → Type 0
  Closed done w = (x : Str) → In x done → Leads x (touching x) w

  record Final (w : Walk) : Type 0 where
    inv : Sound w.members w
    closed : Closed w.members w

  room :
      (nodes done : List Str) (w : Walk) (cur : Str) (queue : List Str)
      → ((x : Str) → Reach touching threshold root x → In x nodes)
      → w.queue ≡ cur ∷ queue
      → Sound done w
      → suc (length done) ≤ length nodes
  room nodes done w cur queue n q inv =
      let within = NoRepeat-length w.members nodes inv.distinct (λ x i. n x (inv.reached x i)) in
      let size = ap length (inv.split ∙ ap (λ l. done ++ l) q) ∙ length-append done (cur ∷ queue) in
      omega (arith, within, size)

  advance :
      (done : List Str) (w : Walk) (cur : Str) (queue : List Str)
      → w.queue ≡ cur ∷ queue
      → Sound done w
      → Sound (done ++ cur ∷ []) (popped touching basis_of threshold queue w)
  advance done w cur queue q inv = record {
    reached = inv.reached;
    seen_in = inv.seen_in;
    in_seen = inv.in_seen;
    distinct = inv.distinct;
    rooted = inv.rooted;
    split = inv.split ∙ ap (λ l. done ++ l) q ∙ sym (append_assoc done (cur ∷ []) queue);
  }

  abbrev no_ids : Set
  no_ids = []

  -- The state that the loop starts in.
  first : Sound [] (initial touching basis_of threshold root)
  first = record {
    reached =
        λ x i. elim i [ inl q ↦ subst (Reach touching threshold root) q start | inr j ↦ absurd j ];
    seen_in = λ x s. inl (
        let nothing : get no_ids x ≡ none = get-empty x in
        ground (arith, s, str_eq_iff root x, get-put no_ids root x tt, nothing));
    in_seen = λ x i. elim i [
      | inl q ↦ ground (arith, get-put no_ids root x tt, (str_eq_iff root x).1 q)
      | inr j ↦ absurd j
    ];
    distinct = (λ i. i, tt);
    split = refl;
    rooted = ([], refl);
  }

  closed-Reach : (w : Walk) (x : Str) → Final w → Reach touching threshold root x → In x w.members
  closed-Reach w _ final start = subst (In root) (sym final.inv.rooted.1) (inl refl)
  closed-Reach w _ final (hop x r h i b) = final.closed x (closed-Reach w x final h) r i b

  walk_loop-Final :
      (nodes : List Str) (fuel : ℕ) (queue done : List Str) (w : Walk)
      → ((x : Str) → Reach touching threshold root x → In x nodes)
      → w.queue ≡ queue
      → Sound done w
      → Closed done w
      → length nodes < fuel + length done
      → (w' : Walk) × (walk_loop touching basis_of threshold fuel queue w ≡ some w') × Final w'
  unfolding walk_loop
  walk_loop-Final nodes fuel [] done w n q inv c f =
      let whole : done ≡ w.members = sym (inv.split ∙ ap (λ l. done ++ l) q ∙ append-nil done) in
      (
        w,
        refl,
        record { inv = subst (λ d. Sound d w) whole inv; closed = subst (λ d. Closed d w) whole c },
      )
  walk_loop-Final nodes zero (cur ∷ queue) done w n q inv c f =
      absurd (omega (arith, room nodes done w cur queue n q inv, f))
  walk_loop-Final nodes (suc fuel) (cur ∷ queue) done w n q inv c f =
      let before = advance done w cur queue q inv in
      let listed : In cur w.members =
        subst (In cur) (sym before.split)
          (In-left cur (done ++ cur ∷ []) queue (In-right cur done (cur ∷ []) (inl refl))) in
      let (after, grown, led) =
        visit_all-Inv touching basis_of threshold root (done ++ cur ∷ [])
          (popped touching basis_of threshold queue w) cur (touching cur) (inv.reached cur listed)
          (λ r i. i) before in
      let next =
        visit_all touching basis_of threshold cur (touching cur)
          (popped touching basis_of threshold queue w) in
      walk_loop-Final nodes fuel next.queue (done ++ cur ∷ []) next n refl after
        (λ x i r j b. elim (In-append x done (cur ∷ []) i) [
          | inl k ↦ grown (other_end x r) (c x k r j b)
          | inr (inl p) ↦ subst (λ y. Leads y (touching y) next) p led r j b
          | inr (inr k) ↦ absurd k
        ])
        (omega (arith, f, length-append done (cur ∷ [])))

  pub record Group (members : List Str) : Type 0 where
    pub rooted : (rest : List Str) × (members ≡ root ∷ rest)
    pub once : NoRepeat members
    pub sound : (x : Str) → In x members → Reach touching threshold root x
    pub complete : (x : Str) → Reach touching threshold root x → In x members

  -- The group that Walk returns.
  abbrev pub group : Option (List Str × List Link) → List Str
  group none = []
  group (some (members, links)) = members

  walk-found :
      (nodes : List Str) (fuel : ℕ)
      → ((x : Str) → Reach touching threshold root x → In x nodes)
      → length nodes < fuel
      → (w : Walk) × (walk touching basis_of threshold fuel root
          ≡ some (w.members, sort_links w.links))
        × Final w
  unfolding walk
  walk-found nodes fuel n f =
      let start = initial touching basis_of threshold root in
      let (w, e, final) =
        walk_loop-Final nodes fuel (root ∷ []) [] start n refl first (λ x i. absurd i)
          (omega (arith, f)) in
      (w, ap (answer touching basis_of threshold) e, final)

  -- The walk ends: with more rounds than there are entities that the believed edges reach from the
  -- root, all of them in `nodes`, it returns a group and its links.
  pub walk-terminates :
      (nodes : List Str) (fuel : ℕ)
      → ((x : Str) → Reach touching threshold root x → In x nodes)
      → length nodes < fuel
      → is_some (walk touching basis_of threshold fuel root) ≡ true
  walk-terminates nodes fuel n f = let (w, e, final) = walk-found nodes fuel n f in rw e refl

  -- With more rounds than there are entities that the believed edges reach from the root, the group
  -- is the root first, then, each once, exactly the entities that believed edges reach from it.
  pub walk-reaches :
      (nodes : List Str) (fuel : ℕ)
      → ((x : Str) → Reach touching threshold root x → In x nodes)
      → length nodes < fuel
      → Group (group (walk touching basis_of threshold fuel root))
  walk-reaches nodes fuel n f =
      let (w, e, final) = walk-found nodes fuel n f in
      rw e (record {
        rooted = final.inv.rooted;
        once = final.inv.distinct;
        sound = final.inv.reached;
        complete = λ x h. closed-Reach w x final h;
      })
