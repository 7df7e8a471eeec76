-- ===== src/Store/Keys.antt =====
-- The keys of internal/store/store.go: an index prefix, and sequences as eight bytes, the highest
-- first. A key is read as a list of bytes; the indexes are ordered as bytes.Compare orders keys.
pub mod Range
pub mod Order
pub mod Window
use toise.Common.{
  ℕ, zero, suc, ◌+◌, ◌-◌, ◌*◌, ◌/◌, ◌%◌, ◌^◌, Bool, true, false, ◌&&◌, ◌||◌, Option, none, some,
  List, [], ◌∷◌, ◌++◌, if◌then◌else◌, ltb, leb, nat_eq, length, drop, Str, codes,
}
use toise.Model.Entity.{ChangeType}

-- binary.BigEndian over `k` bytes: PutUint64 is k = 8 and PutUint32 is k = 4.
unfoldable pub encode_be : ℕ → ℕ → Str
encode_be zero n = []
encode_be (suc k) n = n / 256 ^ k % 256 ∷ encode_be k (n % 256 ^ k)

unfoldable pub decode_be : ℕ → Str → ℕ
decode_be acc [] = acc
decode_be acc (b ∷ s) = decode_be (acc * 256 + b) s

unfoldable pub encode_u64 : ℕ → Str
unfolding encode_be
encode_u64 n = encode_be 8 n

abbrev pub primary_prefix : Str
primary_prefix = codes "evt/"

abbrev pub entity_prefix : Str
entity_prefix = codes "ent/"

abbrev pub type_prefix : Str
type_prefix = codes "typ/"

abbrev pub time_prefix : Str
time_prefix = codes "tim/"

unfoldable pub primary_key : ℕ → Str
primary_key seq = primary_prefix ++ encode_u64 seq

unfoldable pub entity_key : Str → ℕ → Str
entity_key id seq = entity_prefix ++ (id ++ (47 ∷ encode_u64 seq))

-- The change type is one byte, its number.
unfoldable pub type_key : ℕ → ℕ → Str
type_key ct seq = type_prefix ++ (ct % 256 ∷ encode_u64 seq)

unfoldable pub time_key : ℕ → ℕ → Str
time_key nano seq = time_prefix ++ (encode_u64 nano ++ encode_u64 seq)

-- timeKeyBound
unfoldable pub time_key_bound : ℕ → Str
time_key_bound nano = time_prefix ++ encode_u64 nano

-- The last eight bytes of a key, and 0 for a shorter one.
unfoldable pub seq_from_key_suffix : Str → ℕ
unfolding decode_be
seq_from_key_suffix key = if ltb (length key) 8 then 0 else decode_be 0 (drop (length key - 8) key)

-- The last byte below 0xff is raised and what follows it is cut off; `none` where there is none.
unfoldable pub prefix_upper_bound : Str → Option Str
prefix_upper_bound [] = none
prefix_upper_bound (b ∷ s) =
    let here : Option Str = if nat_eq b 0xff then none else some ((b + 1) ∷ []) in
    elim (prefix_upper_bound s) [ none ↦ here | some end ↦ some (b ∷ end) ]
