-- ===== src/Canonical.antt =====
-- internal/canonical/canonical.go: the walk over same_as edges. The loop runs on fuel. A double is
-- its 64 bits, compared as IEEE 754 compares them; how a value prints as JSON is an argument.
pub mod Distinct
pub mod Visit
pub mod Reach
use toise.Common.{
  ℕ, zero, suc, ◌+◌, ◌/◌, ◌%◌, ◌^◌, Bool, true, false, ◌&&◌, ◌||◌, not, Option, none, some, List,
  [], ◌∷◌, ◌++◌, if◌then◌else◌, ltb, leb, nat_eq, Str, codes, ◌==◌, str_Eq,
}
use toise.Common.Decimal.{ℤ, pos, negsuc}
use toise.Common.Dict.{put, has}
use toise.Model.Value.{
  Runtime, Value, invalid, string, int, double, bool, array, kvlist, KeyValue, format_int,
  format_bool, str_lt,
}
use toise.Model.Entity.{Relation}
use toise.Projection.Graph.{Set}

abbrev pub confidence_key : Str
confidence_key = codes "confidence"

abbrev pub basis_key : Str
basis_key = codes "basis"

-- The bits of 1.
abbrev pub one_bits : ℕ
one_bits = 0x3ff0000000000000

-- The bits without the sign.
abbrev pub magnitude : ℕ → ℕ
magnitude x = x % 2 ^ 63

abbrev pub is_negative : ℕ → Bool
is_negative x = leb (2 ^ 63) x

abbrev pub is_nan : ℕ → Bool
is_nan x = ltb 0x7ff0000000000000 (magnitude x)

-- x <= y
unfoldable pub float_le : ℕ → ℕ → Bool
float_le x y =
    not (is_nan x)
    && not (is_nan y)
    && (if nat_eq (magnitude x) 0 && nat_eq (magnitude y) 0
        then true
        else if is_negative x
        then not (is_negative y) || leb (magnitude y) (magnitude x)
        else not (is_negative y) && leb (magnitude x) (magnitude y))

-- x < y
abbrev pub float_lt : ℕ → ℕ → Bool
float_lt x y = float_le x y && not (float_le y x)

-- c, c >= 0 && c <= 1; the number that comes with false is left out.
abbrev pub in_unit : ℕ → Option ℕ
in_unit c = if float_le 0 c && float_le c one_bits then some c else none

-- Of the integers only 0 and 1 become a double in the unit interval.
abbrev pub value_confidence : Value → Option ℕ
value_confidence (double c) = in_unit c
value_confidence (int (pos zero)) = some 0
value_confidence (int (pos (suc zero))) = some one_bits
value_confidence _ = none

-- The first attribute of that key decides.
unfoldable pub attribute_confidence : List KeyValue → Option ℕ
attribute_confidence [] = none
attribute_confidence (kv ∷ kvs) =
    let rest = attribute_confidence kvs in
    if kv.key == confidence_key then value_confidence kv.value else rest

unfoldable pub confidence : Relation → Option ℕ
unfolding attribute_confidence
confidence r = attribute_confidence r.attributes

module _ ⦃runtime : Runtime⦄ (json : Value → Str) where
  -- Value.Display
  unfoldable pub display : Value → Str
  unfolding format_int
  display invalid = []
  display (string s) = s
  display (int i) = format_int i
  display (double f) = runtime.format_float f
  display (bool b) = format_bool b
  display (array vs) = json (array vs)
  display (kvlist fs) = json (kvlist fs)

  unfoldable pub attribute_basis : List KeyValue → Str
  unfolding display
  attribute_basis [] = []
  attribute_basis (kv ∷ kvs) =
      let rest = attribute_basis kvs in if kv.key == basis_key then display kv.value else rest

  unfoldable pub basis : Relation → Str
  unfolding attribute_basis
  basis r = attribute_basis r.attributes

pub record Link : Type 0 where
  pub from : Str
  pub to : Str
  pub confidence : ℕ
  pub basis : Str

pub record Walk : Type 0 where
  pub seen : Set
  pub seen_link : Set
  pub members : List Str
  pub queue : List Str
  pub links : List Link

-- The order of the sort of the links.
abbrev pub link_before : Link → Link → Bool
link_before a b = if a.from == b.from then str_lt a.to b.to else str_lt a.from b.from

unfoldable pub insert_link : Link → List Link → List Link
insert_link l [] = l ∷ []
insert_link l (m ∷ links) =
    let rest = insert_link l links in if link_before m l then m ∷ rest else l ∷ m ∷ links

unfoldable pub sort_links : List Link → List Link
unfolding insert_link
sort_links [] = []
sort_links (l ∷ links) = insert_link l (sort_links links)

-- The end of an edge that is not `cur`.
abbrev pub other_end : Str → Relation → Str
other_end cur r = if r.to == cur then r.from else r.to

abbrev pub is_believed : ℕ → Relation → Bool
is_believed threshold r = elim (confidence r) [ none ↦ false | some c ↦ not (float_lt c threshold) ]

-- `touching` is the graph's RelationsTouching for same_as edges, `basis_of` the edge's basis.
module _ (touching : Str → List Relation) (basis_of : Relation → Str) (threshold : ℕ) where
  abbrev pub note_believed : Option ℕ → Relation → Walk → Walk
  note_believed none r w = w
  note_believed (some c) r w = if has w.seen_link r.id then w else record w {
    seen_link = put w.seen_link r.id tt;
    links = w.links ++ record { from = r.from; to = r.to; confidence = c; basis = basis_of r } ∷ [];
  }

  unfoldable pub note_link : Relation → Walk → Walk
  note_link r w = note_believed (confidence r) r w

  unfoldable pub meet : Str → Walk → Walk
  meet other w = if has w.seen other then w else record w {
    seen = put w.seen other tt;
    members = w.members ++ other ∷ [];
    queue = w.queue ++ other ∷ [];
  }

  -- One pass of the inner loop.
  unfoldable pub visit : Str → Relation → Walk → Walk
  unfolding note_link meet
  visit cur r w = if is_believed threshold r then meet (other_end cur r) (note_link r w) else w

  unfoldable pub visit_all : Str → List Relation → Walk → Walk
  unfolding visit
  visit_all cur [] w = w
  visit_all cur (r ∷ rs) w = visit_all cur rs (visit cur r w)

  abbrev pub popped : List Str → Walk → Walk
  popped queue w = record w { queue = queue }

  -- The loop: none when the fuel ends before the queue.
  unfoldable pub walk_loop : ℕ → List Str → Walk → Option Walk
  unfolding visit_all
  walk_loop fuel [] w = some w
  walk_loop zero (cur ∷ queue) w = none
  walk_loop (suc fuel) (cur ∷ queue) w =
      let after = visit_all cur (touching cur) (popped queue w) in walk_loop fuel after.queue after

  abbrev pub initial : Str → Walk
  initial root = record {
    seen = put [] root tt;
    seen_link = [];
    members = root ∷ [];
    queue = root ∷ [];
    links = [];
  }

  abbrev pub answer : Option Walk → Option (List Str × List Link)
  answer none = none
  answer (some w) = some (w.members, sort_links w.links)

  unfoldable pub walk : ℕ → Str → Option (List Str × List Link)
  unfolding walk_loop sort_links
  walk fuel root = answer (walk_loop fuel (root ∷ []) (initial root))
