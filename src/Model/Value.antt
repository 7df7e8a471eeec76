-- ===== src/Model/Value.antt =====
-- internal/model/value.go: attribute values and their canonical encoding.
-- A double is its 64 bits; how it prints is a parameter, as is SHA-256 and the ULID generator.
use toise.Common.{
  ℕ, ◌+◌, Bool, true, false, List, [], ◌∷◌, ◌++◌, if◌then◌else◌, ltb, nat_eq, length, Str, codes,
}
use toise.Common.Decimal.{ℤ, pos, negsuc, itoa}
use toise.Common.Dict.{Dict}

-- What the program takes from other code: crypto/sha256, strconv.FormatFloat and ulid.Make, the
-- last as the n-th identifier that is minted.
pub record Runtime : Type 0 where
  pub sha256 : Str → Str
  pub format_float : ℕ → Str
  pub ulid : ℕ → Str

pub data ValueKind : Type 0 where
  kind_invalid kind_string kind_int kind_double kind_bool kind_array kind_kvlist : ValueKind

-- `kvlist` holds the keys and values in their order.
mutual
  pub data Value : Type 0 where
    invalid : Value
    string : Str → Value
    int : ℤ → Value
    double : ℕ → Value
    bool : Bool → Value
    array : Values → Value
    kvlist : Fields → Value

  pub data Values : Type 0 where
    nil : Values
    cons : Value → Values → Values

  pub data Fields : Type 0 where
    end : Fields
    field : Str → Value → Fields → Fields

pub record KeyValue : Type 0 where
  pub key : Str
  pub value : Value

abbrev pub kind : Value → ValueKind
kind invalid = kind_invalid
kind (string s) = kind_string
kind (int i) = kind_int
kind (double f) = kind_double
kind (bool b) = kind_bool
kind (array vs) = kind_array
kind (kvlist fs) = kind_kvlist

abbrev pub is_valid : Value → Bool
is_valid invalid = false
is_valid _ = true

unfoldable pub format_int : ℤ → Str
format_int (pos n) = itoa n
format_int (negsuc n) = 45 ∷ itoa (n + 1)

abbrev pub format_bool : Bool → Str
format_bool true = codes "true"
format_bool false = codes "false"

-- strings.Compare(a, b) < 0, on bytes.
unfoldable pub str_lt : Str → Str → Bool
str_lt s [] = false
str_lt [] (b ∷ t) = true
str_lt (a ∷ s) (b ∷ t) =
    let rest = str_lt s t in if ltb a b then true else if nat_eq a b then rest else false

module _ {ℓ} {A : Type ℓ} where
  -- sort.Slice by key, as an insertion sort.
  unfoldable pub insert_by_key : Str → A → Dict Str A → Dict Str A
  insert_by_key k a [] = (k, a) ∷ []
  insert_by_key k a ((j, b) ∷ d) =
      let rest = insert_by_key k a d in if str_lt j k then (j, b) ∷ rest else (k, a) ∷ (j, b) ∷ d

  unfoldable pub sort_by_key : Dict Str A → Dict Str A
  unfolding insert_by_key
  sort_by_key [] = []
  sort_by_key ((k, a) ∷ d) = insert_by_key k a (sort_by_key d)

-- A length-prefixed part: `<len>:<bytes>`.
unfoldable pub prefixed : Str → Str
prefixed s = itoa (length s) ++ 58 ∷ s

unfoldable pub encode_parts : List Str → Str
unfolding prefixed
encode_parts [] = []
encode_parts (s ∷ parts) = prefixed s ++ encode_parts parts

unfoldable pub encode_fields : Dict Str Str → Str
unfolding prefixed
encode_fields [] = []
encode_fields ((k, c) ∷ fields) = prefixed k ++ prefixed c ++ encode_fields fields

module _ ⦃runtime : Runtime⦄ where
  -- The fields are encoded before they are sorted: the sort reads the keys alone.
  unfoldable mutual
    unfolding encode_parts encode_fields sort_by_key format_int

    pub canonical : Value → Str
    canonical invalid = codes "n:"
    canonical (string s) = codes "s:" ++ s
    canonical (int i) = codes "i:" ++ format_int i
    canonical (double f) = codes "d:" ++ runtime.format_float f
    canonical (bool b) = codes "b:" ++ format_bool b
    canonical (array vs) =
        let parts = canonical_values vs in
        codes "a:" ++ itoa (length parts) ++ 58 ∷ encode_parts parts
    canonical (kvlist fs) =
        let fields = canonical_fields fs in
        codes "k:" ++ itoa (length fields) ++ 58 ∷ encode_fields (sort_by_key fields)

    pub canonical_values : Values → List Str
    canonical_values nil = []
    canonical_values (cons v vs) = canonical v ∷ canonical_values vs

    pub canonical_fields : Fields → Dict Str Str
    canonical_fields end = []
    canonical_fields (field k v fs) = (k, canonical v) ∷ canonical_fields fs
