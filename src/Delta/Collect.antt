-- ===== src/Delta/Collect.antt =====
-- delta/delta.go and delta/snapshot.go: the cache of changes and the snapshot provider.
pub mod History
use kvisor.Base.{
  String, GoMap, insert, delete, values, List, [], ◌∷◌, Bool, true, false, any, if◌then◌else◌,
}
use kvisor.Kube.Object.{Object, get_uid, Event}
use kvisor.Delta.Item.{
  EventType, type_add, type_update, type_delete, DeltaItem, Delta, Outside, make_item,
}

-- `delta`, with the state of its snapshot provider.
pub record Collector : Type 0 where
  pub cache : GoMap DeltaItem
  pub snapshot_state : GoMap DeltaItem
  pub skippers : List (Object → Bool)

abbrev pub new_delta : GoMap DeltaItem → Collector
new_delta provider = record { cache = []; snapshot_state = provider; skippers = [] }

-- `snapshotProvider.append`.
unfoldable pub append : GoMap DeltaItem → DeltaItem → GoMap DeltaItem
append state item = elim item.event [
  | type_add ↦ insert item.object_uid (record item { event = type_add }) state
  | type_update ↦ insert item.object_uid (record item { event = type_add }) state
  | type_delete ↦ delete item.object_uid state
]

-- `snapshotProvider.snapshot`.
unfoldable pub snapshot : GoMap DeltaItem → List DeltaItem
snapshot state = values state

unfoldable pub add : Outside → Collector → Event → Object → Collector
unfolding append
add out d event obj = if any (λ skipper. skipper obj) d.skippers then d else record d {
  cache = insert (get_uid obj) (make_item out event obj) d.cache;
  snapshot_state = append d.snapshot_state (make_item out event obj);
}

unfoldable pub clear : Collector → Collector
clear d = record d { cache = [] }

unfoldable pub to_castai_request : Collector → Delta
to_castai_request d = record { full_snapshot = false; items = values d.cache }

-- What `ResyncObserver` sends, if the telemetry response asks for a full resync.
unfoldable pub resync : Bool → GoMap DeltaItem → List Delta
unfolding snapshot
resync full_resync state =
    if full_resync then record { full_snapshot = true; items = snapshot state } ∷ [] else []
