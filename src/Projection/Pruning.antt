-- ===== src/Projection/Pruning.antt =====
-- PruneTombstones of internal/projection/graph.go: expiry by time, and the length of the queue.
use toise.Common.{◌*◌, ◌≤◌, ◌≡◌, true, List, [], ◌∷◌, length, Str, str_Eq}
use toise.Common.Dict.{Dict, remove, has}
use toise.Projection.Graph.{Graph, Set}

-- Each id of the list is in the set, and no id twice.
abbrev DistinctIn : Set → List Str → Type 0
DistinctIn d [] = Unit
DistinctIn d (id ∷ ids) = (has d id ≡ true) × DistinctIn (remove d id) ids

-- The queue of a bounded graph after the last step of a pruning.
IsShort : Graph → Type 0
IsShort g = length g.tombstones ≤ 2 * g.live_tombstones
