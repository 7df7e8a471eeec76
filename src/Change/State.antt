-- ===== src/Change/State.antt =====
-- The types of internal/change/engine.go. A Duration that is not positive is 0 here: the code only
-- tests for positive ones.
use toise.Common.{Bool, List, Str}
use toise.Common.Dict.{Dict}
use toise.Model.Value.{KeyValue}
use toise.Model.Entity.{Entity, Relation}
use toise.Model.Event.{Event, Time, Duration}
use toise.Projection.Graph.{Set}

pub record LiveRef : Type 0 where
  pub deadline : Time
  pub interval : Duration
  pub legacy : Bool

-- The references of one entity or edge, by speaker key.
abbrev pub Speakers : Type 0
Speakers = Dict Str LiveRef

abbrev pub Refs : Type 0
Refs = Dict Str Speakers

pub record BadPromise : Type 0 where
  pub declared : Duration
  pub producer : Str

pub record EntityObservation : Type 0 where
  pub type : Str
  pub identity : List KeyValue
  pub attributes : List KeyValue
  pub schema_url : Str
  pub event_time : Time
  pub interval : Duration
  pub producer : Str
  pub delete_reason : Str

pub record EndpointRef : Type 0 where
  pub type : Str
  pub identity : List KeyValue

pub record RelationObservation : Type 0 where
  pub type : Str
  pub from : EndpointRef
  pub to : EndpointRef
  pub attributes : List KeyValue
  pub event_time : Time
  pub producer : Str
  pub interval : Duration
  pub source_interval : Duration

pub record PendingRelation : Type 0 where
  pub obs : RelationObservation
  pub deadline : Time
  pub scope : Str

-- A batch's uncommitted events, each with its priority, and the overlay of their effects.
pub record Staged : Type 0 where
  pub events : List (Event × Bool)
  pub scope : Str
  pub entities : Dict Str Entity
  pub deleted : Set
  pub by_hash : Dict Str Str
  pub relations : Dict Str Relation
  pub rel_removed : Set
