-- ===== src/Store/Index.antt =====
-- internal/store/store.go and retention.go: the index entries that an append writes for an event,
-- and the keys that a prune deletes for it once it has decoded it (internal/model/event.go).
pub mod Trace
use toise.Common.{
  ℕ, ◌+◌, ◌%◌, ◌*◌, ◌-◌, ◌^◌, Bool, true, false, Option, none, some, List, [], ◌∷◌, ◌++◌,
  if◌then◌else◌, ltb, nat_eq, is_empty, Str,
}
use toise.Model.Entity.{
  ChangeType, change_unspecified, entity_created, entity_deleted, entity_identity_changed,
  entity_attribute_updated, entity_state_changed, entity_unchanged, relation_added,
  relation_removed, relation_attribute_changed,
}
use toise.Model.Event.{Event, EntityEvent, RelationEvent, Time, of_entity, of_relation}
use toise.Store.Keys.{primary_key, entity_key, type_key, time_key}

-- The number of a change type.
abbrev pub number_of : ChangeType → ℕ
number_of change_unspecified = 0
number_of entity_created = 1
number_of entity_deleted = 2
number_of entity_identity_changed = 3
number_of entity_attribute_updated = 4
number_of entity_state_changed = 5
number_of relation_added = 7
number_of relation_removed = 8
number_of relation_attribute_changed = 9
number_of entity_unchanged = 6

-- Time.UnixNano as a uint64, which wraps: Go's zero time is 62135596800 seconds before the epoch.
abbrev pub unix_nano : Time → ℕ
unix_nano t = (t + (4 * 2 ^ 64 - 62135596800 * 1000000000)) % 2 ^ 64

-- nanoOf: the zero time is written as 0.
abbrev pub nano_of : Time → ℕ
nano_of t = if nat_eq t 0 then 0 else unix_nano t

-- time.Unix of an int64, given by its bits, as nanoseconds since the zero time.
abbrev pub from_unix_nano : ℕ → Time
from_unix_nano n =
    if ltb n (2 ^ 63) then 62135596800 * 1000000000 + n else 62135596800 * 1000000000 + n - 2 ^ 64

-- timeOf: 0 is read as the zero time.
abbrev pub time_of : ℕ → Time
time_of n = if nat_eq n 0 then 0 else from_unix_nano n

abbrev pub entity_read_back : EntityEvent → EntityEvent
entity_read_back ee = record ee {
  event_time = time_of (nano_of ee.event_time);
  recorded_at = time_of (nano_of ee.recorded_at);
}

abbrev pub relation_read_back : RelationEvent → RelationEvent
relation_read_back re = record re {
  event_time = time_of (nano_of re.event_time);
  recorded_at = time_of (nano_of re.recorded_at);
}

abbrev pub parts_read_back : Option EntityEvent → Option RelationEvent → Event
parts_read_back (some ee) re = of_entity (entity_read_back ee)
parts_read_back none (some re) = of_relation (relation_read_back re)
parts_read_back none none = record { entity = none; relation = none }

-- EventFromProto of ToProto: the times are converted, the generated types carry the rest.
abbrev pub read_back : Event → Event
read_back ev = parts_read_back ev.entity ev.relation

-- The low seven bits are the change type, the high one says that a relation is structural.
abbrev pub tag : Bool → ℕ → ℕ
tag structural ct = if structural then ct % 128 + 128 else ct % 128

abbrev pub is_structural : Option RelationEvent → Bool
is_structural none = false
is_structural (some re) = re.relation.structural

unfoldable pub class_tag : Event → ChangeType → ℕ
class_tag ev ct = tag (is_structural ev.relation) (number_of ct)

-- A key and its value; an entity without an id has no entry.
abbrev pub entity_entry : Str → ℕ → List (Str × Str)
entity_entry id seq = if is_empty id then [] else (entity_key id seq, []) ∷ []

abbrev pub index_parts :
    Event → ℕ → Option EntityEvent → Option RelationEvent → Option (List (Str × Str))
index_parts ev seq (some ee) re =
    let ct = ee.change_type in
    some (
      entity_entry ee.entity.id seq
      ++ (type_key (number_of ct) seq, [])
        ∷ (time_key (unix_nano ee.event_time) seq, class_tag ev ct ∷ [])
        ∷ [])
index_parts ev seq none (some re) =
    let ct = re.change_type in
    some (
      (entity_entry re.relation.from seq ++ entity_entry re.relation.to seq)
      ++ (type_key (number_of ct) seq, [])
        ∷ (time_key (unix_nano re.event_time) seq, class_tag ev ct ∷ [])
        ∷ [])
index_parts ev seq none none = none

-- indexEvent: none is the error for an empty envelope.
unfoldable pub index_event : Event → ℕ → Option (List (Str × Str))
unfolding class_tag
index_event ev seq = index_parts ev seq ev.entity ev.relation

abbrev pub key_parts : ℕ → Option EntityEvent → Option RelationEvent → List Str
key_parts seq (some ee) re =
    entity_key ee.entity.id seq
    ∷ type_key (number_of ee.change_type) seq
    ∷ time_key (unix_nano ee.event_time) seq
    ∷ []
key_parts seq none (some re) =
    entity_key re.relation.from seq
    ∷ entity_key re.relation.to seq
    ∷ type_key (number_of re.change_type) seq
    ∷ time_key (unix_nano re.event_time) seq
    ∷ []
key_parts seq none none = []

-- eventKeys
unfoldable pub event_keys : Event → ℕ → List Str
event_keys ev seq = primary_key seq ∷ key_parts seq ev.entity ev.relation
