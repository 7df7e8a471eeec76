-- ===== src/Projection/Graph.antt =====
-- internal/projection/graph.go: the state and every operation that changes it. The clock is an
-- argument; the lock makes each operation one step. `deleted` is a set: the code stores only true.
use toise.Common.{
  ℕ, ◌+◌, ◌-◌, ◌*◌, ◌&&◌, not, Option, none, some, List, [], ◌∷◌, ◌++◌, if◌then◌else◌, ltb, nat_eq,
  length, Str, ◌==◌, str_Eq,
}
use toise.Common.Dict.{Dict, get, put, remove, has}
use toise.Model.Value.{Runtime}
use toise.Model.Entity.{
  Entity, Relation, ChangeType, entity_created, entity_deleted, entity_identity_changed,
  entity_attribute_updated, entity_state_changed, entity_unchanged, relation_added,
  relation_removed, relation_attribute_changed, hash_of,
}
use toise.Model.Event.{Event, EntityEvent, RelationEvent, Time, Duration}

abbrev pub Set : Type 0
Set = Dict Str (Unit {0})

pub record Graph : Type 0 where
  pub entities : Dict Str Entity
  pub deleted : Set
  pub relations : Dict Str Relation
  pub outgoing : Dict Str Set
  pub incoming : Dict Str Set
  pub by_hash : Dict Str Str
  pub by_type : Dict Str Set
  pub tombstones : List Str
  pub tombstone_cap : ℕ
  pub live_tombstones : ℕ
  pub tomb_by_hash : Dict Str Str
  pub tomb_deadline : Dict Str Time
  pub tombstone_ttl : Duration

-- 15 minutes, in nanoseconds.
abbrev pub default_tombstone_ttl : Duration
default_tombstone_ttl = 15 * 60 * 1000000000

abbrev pub default_tombstone_cap : ℕ
default_tombstone_cap = 1024

-- A limit that is not positive means the default.
unfoldable pub new_with_tombstone_cap : ℕ → Graph
new_with_tombstone_cap limit = record {
  entities = [];
  deleted = [];
  relations = [];
  outgoing = [];
  incoming = [];
  by_hash = [];
  by_type = [];
  tombstones = [];
  tombstone_cap = if nat_eq limit 0 then default_tombstone_cap else limit;
  live_tombstones = 0;
  tomb_by_hash = [];
  tomb_deadline = [];
  tombstone_ttl = default_tombstone_ttl;
}

unfoldable pub new : Graph
unfolding new_with_tombstone_cap
new = new_with_tombstone_cap default_tombstone_cap

unfoldable pub set_tombstone_ttl : Graph → Duration → Graph
set_tombstone_ttl g ttl = record g { tombstone_ttl = ttl }

-- The set under a key, empty where the map holds none.
abbrev pub members : Dict Str Set → Str → Set
members d k = elim (get d k) [ none ↦ [] | some s ↦ s ]

unfoldable pub add_member : Dict Str Set → Str → Str → Dict Str Set
add_member d k id = put d k (put (members d k) id tt)

-- delete(d[k], id), which leaves a missing set missing.
unfoldable pub remove_member : Dict Str Set → Str → Str → Dict Str Set
remove_member d k id = elim (get d k) [ none ↦ d | some s ↦ put d k (remove s id) ]

module _ ⦃runtime : Runtime⦄ where
  unfoldable pub put_entity : Graph → Entity → Graph
  unfolding add_member
  put_entity g e =
      let h = hash_of e in
      let dead = has g.deleted e.id in
      record g {
        entities = put g.entities e.id e;
        live_tombstones = if dead then g.live_tombstones - 1 else g.live_tombstones;
        tomb_deadline = if dead then remove g.tomb_deadline e.id else g.tomb_deadline;
        deleted = remove g.deleted e.id;
        tomb_by_hash = remove g.tomb_by_hash h;
        by_hash = put g.by_hash h e.id;
        by_type = add_member g.by_type e.type e.id;
      }

  -- The hash of the evicted entity is forgotten unless a newer incarnation owns it.
  unfoldable pub forget_hash : Dict Str Str → Option Entity → Str → Dict Str Str
  forget_hash owners none id = owners
  forget_hash owners (some e) id = elim (get owners (hash_of e)) [
    | none ↦ owners
    | some owner ↦ if owner == id then remove owners (hash_of e) else owners
  ]

  unfoldable pub drop_tombstone : Graph → Str → Graph
  unfolding forget_hash
  drop_tombstone g id = record g {
    tomb_by_hash = forget_hash g.tomb_by_hash (get g.entities id) id;
    entities = remove g.entities id;
    deleted = remove g.deleted id;
    tomb_deadline = remove g.tomb_deadline id;
    live_tombstones = g.live_tombstones - 1;
  }

  -- The loop over the queue, which is the graph's `tombstones`.
  unfoldable pub evict_queue : List Str → Graph → Graph
  unfolding drop_tombstone
  evict_queue [] g = record g { tombstones = [] }
  evict_queue (id ∷ queue) g =
      let dropped = evict_queue queue (drop_tombstone g id) in
      let skipped = evict_queue queue g in
      if ltb g.tombstone_cap g.live_tombstones
      then (if has g.deleted id then dropped else skipped)
      else record g { tombstones = id ∷ queue }

  unfoldable pub evict_tombstones : Graph → Graph
  unfolding evict_queue
  evict_tombstones g = evict_queue g.tombstones g

  -- The base of the grace window: the recorded time, or the clock where that is zero.
  abbrev pub grace_deadline : Time → Duration → Time → Dict Str Time → Str → Dict Str Time
  grace_deadline now ttl recorded_at deadlines id =
      let base = if nat_eq recorded_at 0 then now else recorded_at in
      if ltb 0 ttl && not (nat_eq base 0) then put deadlines id (base + ttl) else deadlines

  -- The first half of a deletion: the identity moves to the tombstones.
  unfoldable pub retire : Graph → Str → Option Entity → Graph
  unfolding remove_member
  retire g id none = g
  retire g id (some e) = record g {
    by_hash = remove g.by_hash (hash_of e);
    tomb_by_hash = put g.tomb_by_hash (hash_of e) id;
    by_type = remove_member g.by_type e.type id;
  }

  -- The second half, for an entity that is not soft-deleted yet.
  unfoldable pub bury : Time → Graph → Str → Time → Graph
  bury now g id recorded_at = record g {
    deleted = put g.deleted id tt;
    tombstones = g.tombstones ++ id ∷ [];
    live_tombstones = g.live_tombstones + 1;
    tomb_deadline = grace_deadline now g.tombstone_ttl recorded_at g.tomb_deadline id;
  }

  unfoldable pub delete_entity : Time → Graph → EntityEvent → Graph
  unfolding retire bury evict_tombstones
  delete_entity now g ee =
      let id = ee.entity.id in
      let retired = retire g id (get g.entities id) in
      if has g.deleted id then retired else evict_tombstones (bury now retired id ee.recorded_at)

  -- An identity change frees the hash of the stored identity.
  unfoldable pub change_identity : Graph → Entity → Graph
  unfolding put_entity
  change_identity g e = elim (get g.entities e.id) [
    | none ↦ put_entity g e
    | some old ↦ put_entity (record g { by_hash = remove g.by_hash (hash_of old) }) e
  ]

  -- A heartbeat ensures presence.
  unfoldable pub ensure_entity : Graph → Entity → Graph
  unfolding put_entity
  ensure_entity g e = if has g.entities e.id then g else put_entity g e

  unfoldable pub apply_entity : Time → Graph → ChangeType → EntityEvent → Graph
  unfolding put_entity change_identity delete_entity ensure_entity
  apply_entity now g entity_created ee = put_entity g ee.entity
  apply_entity now g entity_identity_changed ee = change_identity g ee.entity
  apply_entity now g entity_attribute_updated ee = put_entity g ee.entity
  apply_entity now g entity_state_changed ee = put_entity g ee.entity
  apply_entity now g entity_deleted ee = delete_entity now g ee
  apply_entity now g entity_unchanged ee = ensure_entity g ee.entity
  apply_entity now g _ ee = g

-- Storing a relation indexes both of its ends.
unfoldable pub put_relation : Graph → Relation → Graph
unfolding add_member
put_relation g r = record g {
  relations = put g.relations r.id r;
  outgoing = add_member g.outgoing r.from r.id;
  incoming = add_member g.incoming r.to r.id;
}

unfoldable pub drop_relation : Graph → Relation → Graph
unfolding remove_member
drop_relation g r = record g {
  relations = remove g.relations r.id;
  outgoing = remove_member g.outgoing r.from r.id;
  incoming = remove_member g.incoming r.to r.id;
}

unfoldable pub apply_relation : Graph → ChangeType → Relation → Graph
unfolding put_relation drop_relation
apply_relation g relation_added r = put_relation g r
apply_relation g relation_attribute_changed r = put_relation g r
apply_relation g relation_removed r = drop_relation g r
apply_relation g _ r = g

-- One entry for each id that is still soft-deleted, oldest first.
unfoldable pub compact : Set → Set → List Str → List Str
compact deleted seen [] = []
compact deleted seen (id ∷ queue) =
    let skipped = compact deleted seen queue in
    let kept = id ∷ compact deleted (put seen id tt) queue in
    if not (has deleted id) then skipped else if has seen id then skipped else kept

unfoldable pub compact_tombstones : Graph → Graph
unfolding compact
compact_tombstones g = record g { tombstones = compact g.deleted [] g.tombstones }

unfoldable pub compact_if_long : Graph → Graph
unfolding compact_tombstones
compact_if_long g =
    if ltb (2 * g.live_tombstones) (length g.tombstones) then compact_tombstones g else g

module _ ⦃runtime : Runtime⦄ where
  unfoldable pub apply_parts : Time → Graph → Option EntityEvent → Option RelationEvent → Graph
  apply_parts now g (some ee) _ = apply_entity now g ee.change_type ee
  apply_parts now g none (some re) = apply_relation g re.change_type re.relation
  apply_parts now g none none = g

  unfoldable pub apply : Time → Graph → Event → Graph
  unfolding apply_parts apply_entity apply_relation
  apply now g ev = apply_parts now g ev.entity ev.relation

  -- Replay, and the fold of At: the events in order.
  unfoldable pub replay : Time → Graph → List Event → Graph
  unfolding apply
  replay now g [] = g
  replay now g (ev ∷ evs) = replay now (apply now g ev) evs

  -- The loop of PruneTombstones over the deadlines, with the count.
  unfoldable pub prune_each : Time → Dict Str Time → Graph → ℕ → Graph × ℕ
  unfolding drop_tombstone
  prune_each now [] g n = (g, n)
  prune_each now ((id, deadline) ∷ rest) g n =
      let kept = prune_each now rest g n in
      let pruned = prune_each now rest (drop_tombstone g id) (n + 1) in
      let moot = prune_each now rest (record g { tomb_deadline = remove g.tomb_deadline id }) n in
      if ltb deadline now then (if has g.deleted id then pruned else moot) else kept

  unfoldable pub prune_tombstones : Time → Graph → Graph × ℕ
  unfolding prune_each compact_if_long
  prune_tombstones now g =
      if nat_eq g.tombstone_ttl 0
      then (g, 0)
      else let (g', n) = prune_each now g.tomb_deadline g 0 in (compact_if_long g', n)
