-- ===== src/Examples/Sweeps.antt =====
-- A concrete run of the sweep over an entity that no producer backs.
use toise.Common.{In, refl, [], ◌∷◌, codes, arith, str_eq, str_Eq}
use toise.Common.Dict.{get, put, remove}
use toise.Examples.{at, created, db, nobody, plain}
use toise.Model.Event.{Event}
use toise.Model.Value.{sort_by_key}
use toise.Model.Validate.{
  validate_envelope, validate_entity_event, validate_entity, validate_key_values,
}
use toise.Store.{append, events_of}
use toise.Projection.Graph.{new_with_tombstone_cap, replay}
use toise.Projection.Reads.{get_entity, list_relations}
use toise.Change.Staged.{stage, new_staged}
use toise.Change.Engine.{Engine, commit}
use toise.Change.Entities.{remove_incident_relations}
use toise.Change.Sweep.{sweep, sweep_staged}
use toise.Change.Expired.{Expires, sweep-Expires}

abbrev unbacked : Engine
unbacked = record nobody {
  graph = replay 9 (new_with_tombstone_cap 3) (created db ∷ []);
  refs = (codes "2", (codes "agent", at 4) ∷ []) ∷ [];
}

sweep-Expires_example :
    (ev : Event) × In ev (events_of (sweep 9 unbacked).0.store.log) × Expires 9 db ev
unfolding sweep sweep_staged get str_eq get_entity replay put remove new_with_tombstone_cap commit
    remove_incident_relations sort_by_key list_relations stage new_staged append validate_envelope
    validate_entity_event validate_entity validate_key_values
sweep-Expires_example =
    sweep-Expires 9 unbacked (codes "2") db ((codes "agent", at 4) ∷ []) (omega arith) refl refl
      refl refl
