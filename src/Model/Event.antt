-- ===== src/Model/Event.antt =====
-- internal/model/event.go: the qualified events of the log. A time is the nanoseconds since Go's
-- zero time, which is 0.
use toise.Common.{ℕ, Option, none, some, List, Str, codes}
use toise.Model.Entity.{Entity, Relation, ChangeType}

abbrev pub schema_version : Str
schema_version = codes "1.1"

abbrev pub Time : Type 0
Time = ℕ

abbrev pub Duration : Type 0
Duration = ℕ

pub data DeleteSource : Type 0 where
  source_unknown source_producer source_liveness_expiry source_cascade : DeleteSource

pub record EntityEvent : Type 0 where
  pub event_id : Str
  pub change_type : ChangeType
  pub entity : Entity
  pub event_time : Time
  pub recorded_at : Time
  pub commit_seq : ℕ
  pub scope : Str
  pub schema_version : Str
  pub changed_keys : List Str
  pub delete_reason : Str
  pub delete_source : DeleteSource

pub record RelationEvent : Type 0 where
  pub event_id : Str
  pub change_type : ChangeType
  pub relation : Relation
  pub event_time : Time
  pub recorded_at : Time
  pub commit_seq : ℕ
  pub scope : Str
  pub schema_version : Str
  pub changed_keys : List Str
  pub delete_source : DeleteSource

-- The envelope: two pointers, of which a sound event sets one.
pub record Event : Type 0 where
  pub entity : Option EntityEvent
  pub relation : Option RelationEvent

abbrev pub of_entity : EntityEvent → Event
of_entity ee = record { entity = some ee; relation = none }

abbrev pub of_relation : RelationEvent → Event
of_relation re = record { entity = none; relation = some re }
