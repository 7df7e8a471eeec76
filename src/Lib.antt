-- ===== src/Lib.antt =====
-- Toise keeps a live graph of an infrastructure: producers report what they see, an engine turns
-- the reports into qualified events, an append-only log stores them, and a projection folds them
-- into the graph that is queried. This library models that core.
--
-- Parts and files. Model/* is internal/model: the values and their canonical encoding (Value.antt,
-- value.go), entities, relations, identity hashes and change types (Entity.antt; entity.go,
-- relation.go, ids.go, changetype.go), the vocabulary (Registry.antt, registry.go), events
-- (Event.antt, event.go) and their validation (Validate.antt). Projection/* is
-- internal/projection/graph.go: Graph.antt has the state and every operation that changes it
-- (Apply, PruneTombstones and what they call), Reads.antt the queries and SnapshotEvents; the other
-- files prove things about them. Store.antt is the log of internal/store/store.go with Append, and
-- ScanFrom of snapshot_store.go; Store/Keys.antt has the key encodings of store.go and read.go,
-- Store/Index.antt indexEvent and eventKeys, Store/Snapshot.antt WriteSnapshot and ReadSnapshot of
-- snapshot_store.go, Store/Retention.antt PruneOlderThan and Store/Coalesce.antt CoalesceHeartbeats
-- of retention.go. Logship.antt is internal/logship/shipper.go, Canonical.antt
-- internal/canonical/canonical.go and Tenant.antt internal/tenant/tenant.go; the files below them
-- prove things about them. Change/* is internal/change: RefKey, Liveness, Diff, Staged, Engine,
-- Relations, Reconcile, Entities, Deletion and Sweep are engine.go, Alias is alias.go, State holds
-- the types of both; Flush, Buffer, Staging, Atomicity, Expiry, Forgotten, Growth and Expired prove
-- things about them. Common/* holds the shared helpers and Examples* concrete runs.
--
-- How they interact. An observation is classified against the graph and the overlay of the open
-- batch; its event is committed (Engine.commit), which stages it in a batch and otherwise appends
-- it to the log, folds it into the graph and sends it to the subscribers, in this order. A batch
-- and a sweep are one append. The prune works on a snapshot of the log: the events appended since
-- are an argument, as for the coalescing of heartbeats. The log ships its tail to a sink, segment
-- by segment, and a replay reads the segments back. A restart loads the snapshot of the graph,
-- which is a list of events, and folds it.
--
-- How code becomes definitions. The locks make each operation one step, which takes the state and
-- returns the new one. A text is the list of its bytes; a Go map is an association list that is
-- read through `get`, and a loop over a map follows its entries. Times are nanoseconds since Go's
-- zero time and durations that are not positive are 0: the code only tests for positive ones. The
-- clock is one reading for each operation. A double is its 64 bits. A slice expression that is out
-- of range is `none`. An int that wraps is written out where a length field is read (RefKey.antt).
-- Most loops are structural recursions; Neighbors runs for as many rounds as its depth. Three loops
-- run on fuel: ReadSnapshot and the decoding of a segment on the length of what they read, of which
-- each round takes at least four bytes, and the canonical walk on a number of rounds that exceeds
-- the number of entities it can reach. TrimSpace takes one space for each unit, of which a text has
-- no more than bytes. The maps of live entities and of live relations in PruneOlderThan are one
-- map, whose keys say which of the two they name.
--
-- Parameters. SHA-256, the decimal form of a double and the ULID generator are the fields of the
-- record Runtime; no property assumes anything of them. Whether an append reaches the disk is a
-- list of outcomes in the engine's state, and an argument of the prune; the events that
-- proto.Marshal accepts are a field of the store. The protobuf encoding of an event, with the
-- conversions ToProto and EventFromProto around it, is the record Codec; the round trips assume of
-- it that the events at hand read back. The log of the model holds the events as they were
-- appended; what the conversions do to their times is modelled where a prune derives keys from them
-- (Store/Index.antt). The sink of the log shipping is the map of its objects, which it lists in
-- lexical order; a List may fail, and each Put lands, fails or does both. The text that
-- encoding/json writes for a value is an argument of the basis of an edge.
--
-- Not modelled. Display names and their contests, which are only reported; logging and metrics; the
-- registration of subscribers and rollbacks, which belong to the callers; the persisted liveness
-- blob; the readers over the secondary indexes; the file and S3 sinks, and the copies of
-- Checkpoint; ingest and the query interfaces; the protobuf types, which are generated. An event of
-- a changed identity is folded, but nothing in the engine emits one, and the property on the
-- identity indexes excludes it.
pub mod Common
pub mod Model
pub mod Projection
pub mod Store
pub mod Canonical
pub mod Change
pub mod Logship
pub mod Tenant
pub mod Examples
