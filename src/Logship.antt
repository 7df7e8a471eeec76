-- ===== src/Logship.antt =====
-- internal/logship/shipper.go: the export of an event log as immutable segments, and its replay.
-- The sink is the map of its objects, listed in lexical order; a List may fail, and a Put may fail
-- and still have landed. The protobuf encoding of an event is a parameter, and the decoding loop
-- runs on fuel. The scan of the source and the Get of a listed object do not fail.
pub mod Names
pub mod Decode
pub mod Chain
pub mod Sorting
pub mod Replaying
pub mod Landing
pub mod Ship
use toise.Common.{
  ◌⊎◌, inl, inr, ℕ, zero, suc, ◌+◌, ◌-◌, ◌*◌, ◌/◌, ◌%◌, ◌^◌, Bool, true, false, ◌&&◌, not, Option,
  none, some, List, [], ◌∷◌, ◌++◌, map, keep, if◌then◌else◌, ltb, leb, nat_eq, length, take, drop,
  is_empty, is_some, ◌||◌, Str, codes, ◌==◌, str_Eq, index_byte,
}
use toise.Common.Dict.{Dict, get, put, remove}
use toise.Model.Event.{Event}
use toise.Model.Value.{str_lt}
use toise.Store.{Store, scan_from}
use toise.Store.Keys.{decode_be}
use toise.Store.Snapshot.{Codec, event_frames}

-- The objects of the sink, and the cached cursors by tenant.
pub record Shipper : Type 0 where
  pub objects : Dict Str Str
  pub cursor : Dict Str ℕ

abbrev pub segment_extension : Str
segment_extension = codes ".seg"

abbrev pub hex_digit : ℕ → ℕ
hex_digit d = if ltb d 10 then 48 + d else 87 + d

-- %0kx, of a number below 16 ^ k.
unfoldable pub hex : ℕ → ℕ → Str
hex zero n = []
hex (suc k) n = hex_digit (n / 16 ^ k) ∷ hex k (n % 16 ^ k)

unfoldable pub segment_name : Str → ℕ → ℕ → Str
unfolding hex
segment_name tenant from to =
    tenant ++ (47 ∷ (hex 16 from ++ (45 ∷ (hex 16 to ++ segment_extension))))

abbrev pub hex_value : ℕ → Option ℕ
hex_value c =
    if leb 48 c && leb c 57
    then some (c - 48)
    else if leb 97 c && leb c 102
    then some (c - 87)
    else if leb 65 c && leb c 70
    then some (c - 55)
    else none

abbrev pub with_digit : Option ℕ → (ℕ → Option ℕ) → Option ℕ
with_digit none rest = none
with_digit (some d) rest = rest d

unfoldable pub parse_digits : ℕ → Str → Option ℕ
parse_digits acc [] = some acc
parse_digits acc (c ∷ s) = with_digit (hex_value c) (λ d. parse_digits (acc * 16 + d) s)

abbrev pub fits_u64 : Option ℕ → Option ℕ
fits_u64 none = none
fits_u64 (some n) = if ltb n (2 ^ 64) then some n else none

-- strconv.ParseUint(s, 16, 64)
unfoldable pub parse_hex : Str → Option ℕ
unfolding parse_digits
parse_hex [] = none
parse_hex (c ∷ s) = fits_u64 (parse_digits 0 (c ∷ s))

-- What follows the last of that byte.
unfoldable pub after_last : ℕ → Str → Option Str
after_last b [] = none
after_last b (c ∷ s) = elim (after_last b s) [
  | none ↦ if nat_eq c b then some s else none
  | some t ↦ some t
]

abbrev pub base_of : Option Str → Str → Str
base_of none name = name
base_of (some t) name = t

-- strings.HasSuffix and strings.TrimSuffix
abbrev pub has_suffix : Str → Str → Bool
has_suffix s suffix = leb (length suffix) (length s) && drop (length s - length suffix) s == suffix

abbrev pub trim_suffix : Str → Str → Str
trim_suffix s suffix = if has_suffix s suffix then take (length s - length suffix) s else s

abbrev pub both : Option ℕ → Option ℕ → Option (ℕ × ℕ)
both (some f) (some t) = some (f, t)
both _ _ = none

abbrev pub parse_parts : Str → Option ℕ → Option (ℕ × ℕ)
parse_parts base none = none
parse_parts base (some i) = both (parse_hex (take i base)) (parse_hex (drop (suc i) base))

abbrev pub parse_base : Str → Option (ℕ × ℕ)
parse_base base = parse_parts base (index_byte base 45)

unfoldable pub parse_segment_name : Str → Option (ℕ × ℕ)
unfolding after_last parse_hex
parse_segment_name name =
    parse_base (trim_suffix (base_of (after_last 47 name) name) segment_extension)

abbrev pub has_prefix : Str → Str → Bool
has_prefix s prefix = take (length prefix) s == prefix

abbrev pub is_segment : Str → Str → Bool
is_segment tenant name = has_prefix name (tenant ++ 47 ∷ []) && has_suffix name segment_extension

-- Sink.List gives the names in lexical order.
unfoldable pub insert_listed : Str → List Str → List Str
insert_listed n [] = n ∷ []
insert_listed n (m ∷ names) =
    let rest = insert_listed n names in if str_lt m n then m ∷ rest else n ∷ m ∷ names

unfoldable pub in_lexical_order : List Str → List Str
unfolding insert_listed
in_lexical_order [] = []
in_lexical_order (n ∷ names) = insert_listed n (in_lexical_order names)

-- The names under the tenant, in the order that the sink lists them.
unfoldable pub segments : Dict Str Str → Str → List Str
unfolding in_lexical_order
segments objects tenant =
    in_lexical_order (keep (is_segment tenant) (map (λ object. object.0) objects))

abbrev pub raised : ℕ → Option (ℕ × ℕ) → ℕ
raised n none = n
raised n (some (f, t)) = if ltb n t then t else n

unfoldable pub max_seq : ℕ → List Str → ℕ
unfolding parse_segment_name
max_seq n [] = n
max_seq n (name ∷ names) = max_seq (raised n (parse_segment_name name)) names

abbrev pub cursor_or : Option ℕ → ℕ → ℕ
cursor_or none derived = derived
cursor_or (some n) derived = n

-- The cursor, derived from the sink where it is not cached.
unfoldable pub last_shipped : Shipper → Str → ℕ
unfolding max_seq segments
last_shipped sh tenant = cursor_or (get sh.cursor tenant) (max_seq 0 (segments sh.objects tenant))

-- What becomes of a segment: its Put lands, lands and yet fails, or fails, or an event of it
-- does not marshal.
pub data Put : Type 0 where
  put_done put_landed put_lost unmarshalable : Put

pub data Shipped : Type 0 where
  shipped : ℕ → Shipped
  put_failed encode_failed list_failed : Shipped

abbrev pub put_segment : Put → Str → ℕ → ℕ → Str → Str → Shipper → Shipper × Shipped
put_segment put_done tenant current n name segment sh = (
  record { objects = put sh.objects name segment; cursor = put sh.cursor tenant current },
  shipped n,
)
put_segment put_landed tenant current n name segment sh =
    (record { objects = put sh.objects name segment; cursor = remove sh.cursor tenant }, put_failed)
put_segment put_lost tenant current n name segment sh =
    (record sh { cursor = remove sh.cursor tenant }, put_failed)
put_segment unmarshalable tenant current n name segment sh = (sh, encode_failed)

-- The entries of the tail scan up to the sequence read before it.
unfoldable pub up_to : ℕ → List (ℕ × Event) → List Event
up_to current [] = []
up_to current ((seq, ev) ∷ log) =
    let rest = up_to current log in if ltb current seq then [] else ev ∷ rest

pub data Decoded : Type 0 where
  decoded : List Event → Decoded
  corrupt : Decoded
  undecided : Decoded

abbrev pub prepended : Event → Decoded → Decoded
prepended ev (decoded evs) = decoded (ev ∷ evs)
prepended ev corrupt = corrupt
prepended ev undecided = undecided

abbrev pub then_decode : Option Event → Decoded → Decoded
then_decode none rest = corrupt
then_decode (some ev) rest = prepended ev rest

pub data ReplayError : Type 0 where
  unparseable overlap gap missing bad_segment unlisted : ReplayError

-- The events applied, and the sequence expected next or the error that stopped the replay.
pub record Replayed : Type 0 where
  pub applied : List Event
  pub end : ℕ ⊎ ReplayError

abbrev pub stopped : ReplayError → Replayed
stopped e = record { applied = []; end = inr e }

abbrev pub after_events : List Event → Replayed → Replayed
after_events evs r = record { applied = evs ++ r.applied; end = r.end }

abbrev pub first_of : Option (ℕ × ℕ) → ℕ
first_of none = 0
first_of (some (f, t)) = f

abbrev pub begins : Str → ℕ
begins name = first_of (parse_segment_name name)

-- The order of the segments: by where they begin.
unfoldable pub insert_name : Str → List Str → List Str
unfolding parse_segment_name
insert_name n [] = n ∷ []
insert_name n (m ∷ names) =
    let rest = insert_name n names in if ltb (begins m) (begins n) then m ∷ rest else n ∷ m ∷ names

unfoldable pub sort_names : List Str → List Str
unfolding insert_name
sort_names [] = []
sort_names (n ∷ names) = insert_name n (sort_names names)

module _ ⦃codec : Codec⦄ where
  -- encodeSegment: the framing of the projection snapshot.
  abbrev pub encode_segment : List Event → Str
  encode_segment events = event_frames events

  abbrev pub ship_from : Put → Str → ℕ → Shipper → ℕ → List Event → Shipper × Shipped
  ship_from outcome tenant current sh from events =
      let cached = record sh { cursor = put sh.cursor tenant from } in
      if leb current from
      then (cached, shipped 0)
      else if is_empty events
      then (cached, shipped 0)
      else put_segment outcome tenant current (length events) (segment_name tenant from current)
          (encode_segment events) cached

  -- The sink is listed only where the cursor is not cached.
  abbrev pub knows_cursor : Bool → Str → Shipper → Bool
  knows_cursor lists tenant sh = is_some (get sh.cursor tenant) || lists

  -- Ship, with `current` the sequence read before the scan of the source; `lists` says whether a
  -- List of the sink succeeds.
  unfoldable pub ship : Bool → Put → Str → ℕ → Store → Shipper → Shipper × Shipped
  unfolding last_shipped up_to segment_name
  ship lists outcome tenant current source sh =
      let from = last_shipped sh tenant in
      if knows_cursor lists tenant sh
      then ship_from outcome tenant current sh from (up_to current (scan_from source from))
      else (sh, list_failed)

  -- One record of `n` bytes.
  abbrev pub decode_record : (Str → Decoded) → ℕ → Str → Decoded
  decode_record loop n bytes =
      let event = then_decode (codec.unmarshal (take n bytes)) (loop (drop n bytes)) in
      if ltb (length bytes) n then corrupt else event

  unfoldable pub decode_loop : ℕ → Str → Decoded
  unfolding decode_be
  decode_loop fuel [] = decoded []
  decode_loop zero (b ∷ bytes) = undecided
  decode_loop (suc fuel) (b ∷ bytes) =
      let n = decode_be 0 (take 4 (b ∷ bytes)) in
      let record_end = decode_record (λ left. decode_loop fuel left) n (drop 4 (b ∷ bytes)) in
      if ltb (length (b ∷ bytes)) 4 then corrupt else record_end

  unfoldable pub decode_segment : Str → Decoded
  unfolding decode_loop
  decode_segment bytes = decode_loop (length bytes) bytes

  abbrev pub apply_segment : Decoded → Replayed → Replayed
  apply_segment (decoded evs) rest = after_events evs rest
  apply_segment corrupt rest = stopped bad_segment
  apply_segment undecided rest = stopped bad_segment

  abbrev pub read_segment : Option Str → Replayed → Replayed
  read_segment none rest = stopped missing
  read_segment (some bytes) rest = apply_segment (decode_segment bytes) rest

  -- The chain is checked before a segment is read.
  abbrev pub check_chain : ℕ → Option (ℕ × ℕ) → (ℕ → Replayed) → Replayed
  check_chain next none rest = stopped unparseable
  check_chain next (some (from, to)) rest =
      let go = rest to in
      if nat_eq from next then go else if ltb from next then stopped overlap else stopped gap

  unfoldable pub replay_names : Dict Str Str → ℕ → List Str → Replayed
  unfolding decode_segment parse_segment_name
  replay_names objects next [] = record { applied = []; end = inl next }
  replay_names objects next (name ∷ names) =
      check_chain next (parse_segment_name name)
        (λ to. read_segment (get objects name) (replay_names objects to names))

  -- Replay, with an apply that accepts every event; `lists` says whether the List succeeds.
  unfoldable pub replay : Bool → Shipper → Str → Replayed
  unfolding segments sort_names replay_names
  replay lists sh tenant =
      if lists
      then replay_names sh.objects 0 (sort_names (segments sh.objects tenant))
      else stopped unlisted
