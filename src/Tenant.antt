-- ===== src/Tenant.antt =====
-- internal/tenant/tenant.go: the tenant of a request, and the check that makes an id a safe name.
-- The HTTP header, the query parameter and the gRPC metadata are arguments.
pub mod Safe
use toise.Common.{
  ℕ, zero, suc, ◌+◌, ◌-◌, Bool, true, false, ◌&&◌, ◌||◌, not, Option, none, some, List, [], ◌∷◌,
  ◌++◌, if◌then◌else◌, ltb, leb, nat_eq, length, take, drop, all, any, is_empty, Str, codes, ◌==◌,
  str_Eq,
}

abbrev pub default_tenant : Str
default_tenant = codes "default"

abbrev pub max_len : ℕ
max_len = 64

-- The encodings of the runes that unicode.IsSpace accepts.
abbrev pub spaces : List Str
spaces =
    (9 ∷ [])
    ∷ (10 ∷ [])
    ∷ (11 ∷ [])
    ∷ (12 ∷ [])
    ∷ (13 ∷ [])
    ∷ (32 ∷ [])
    ∷ (0xc2 ∷ 0x85 ∷ [])
    ∷ (0xc2 ∷ 0xa0 ∷ [])
    ∷ (0xe1 ∷ 0x9a ∷ 0x80 ∷ [])
    ∷ (0xe2 ∷ 0x80 ∷ 0x80 ∷ [])
    ∷ (0xe2 ∷ 0x80 ∷ 0x81 ∷ [])
    ∷ (0xe2 ∷ 0x80 ∷ 0x82 ∷ [])
    ∷ (0xe2 ∷ 0x80 ∷ 0x83 ∷ [])
    ∷ (0xe2 ∷ 0x80 ∷ 0x84 ∷ [])
    ∷ (0xe2 ∷ 0x80 ∷ 0x85 ∷ [])
    ∷ (0xe2 ∷ 0x80 ∷ 0x86 ∷ [])
    ∷ (0xe2 ∷ 0x80 ∷ 0x87 ∷ [])
    ∷ (0xe2 ∷ 0x80 ∷ 0x88 ∷ [])
    ∷ (0xe2 ∷ 0x80 ∷ 0x89 ∷ [])
    ∷ (0xe2 ∷ 0x80 ∷ 0x8a ∷ [])
    ∷ (0xe2 ∷ 0x80 ∷ 0xa8 ∷ [])
    ∷ (0xe2 ∷ 0x80 ∷ 0xa9 ∷ [])
    ∷ (0xe2 ∷ 0x80 ∷ 0xaf ∷ [])
    ∷ (0xe2 ∷ 0x81 ∷ 0x9f ∷ [])
    ∷ (0xe3 ∷ 0x80 ∷ 0x80 ∷ [])
    ∷ []

-- The length of the space at the start of s, 0 where there is none.
abbrev pub space_at_start : List Str → Str → ℕ
space_at_start [] s = 0
space_at_start (w ∷ ws) s =
    let rest = space_at_start ws s in if take (length w) s == w then length w else rest

abbrev pub space_at_end : List Str → Str → ℕ
space_at_end [] s = 0
space_at_end (w ∷ ws) s =
    let rest = space_at_end ws s in
    if leb (length w) (length s) && drop (length s - length w) s == w then length w else rest

-- One space for each unit of fuel; a string of n bytes has at most n.
unfoldable pub trim_left : ℕ → Str → Str
trim_left zero s = s
trim_left (suc fuel) s =
    let n = space_at_start spaces s in
    let rest = trim_left fuel (drop n s) in if nat_eq n 0 then s else rest

unfoldable pub trim_right : ℕ → Str → Str
trim_right zero s = s
trim_right (suc fuel) s =
    let n = space_at_end spaces s in
    let rest = trim_right fuel (take (length s - n) s) in if nat_eq n 0 then s else rest

-- strings.TrimSpace
unfoldable pub trim_space : Str → Str
unfolding trim_left trim_right
trim_space s = let left = trim_left (length s) s in trim_right (length left) left

-- Any byte of a rune outside ASCII is refused, as is its rune.
abbrev pub is_allowed : ℕ → Bool
is_allowed c =
    (leb 97 c && leb c 122)
    || (leb 65 c && leb c 90)
    || (leb 48 c && leb c 57)
    || nat_eq c 45
    || nat_eq c 95
    || nat_eq c 46

abbrev pub dot : Str
dot = codes "."

abbrev pub dot_dot : Str
dot_dot = codes ".."

-- The checks on the trimmed id.
abbrev pub check : Str → Str × Bool
check raw =
    if is_empty raw
    then (default_tenant, true)
    else if ltb max_len (length raw) || raw == dot || raw == dot_dot
    then ([], false)
    else if all is_allowed raw
    then (raw, true)
    else ([], false)

unfoldable pub sanitize : Str → Str × Bool
unfolding trim_space
sanitize raw = check (trim_space raw)

-- The header's value, empty where it is absent.
unfoldable pub from_http : Str → Str × Bool
unfolding sanitize
from_http header = sanitize header

unfoldable pub from_http_with_query : Str → Str → Str × Bool
unfolding from_http
from_http_with_query query header =
    if not (is_empty query) then sanitize query else from_http header

-- The values of the metadata key.
unfoldable pub from_grpc : List Str → Str × Bool
unfolding sanitize
from_grpc [] = (default_tenant, true)
from_grpc (v ∷ values) = sanitize v
