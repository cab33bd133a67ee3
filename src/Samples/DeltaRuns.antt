-- ===== src/Samples/DeltaRuns.antt =====
-- The collection and the sending of changes, on the small cluster.
use kvisor.Base.{lookup, ◌≡◌, refl, ◌≢◌, List, [], ◌∷◌, none, true, false, arith, eq_str-test}
use kvisor.Kube.Object.{pod, node, event_add, event_update, event_delete}
use kvisor.Delta.Item.{DeltaItem, Outside, make_item, type_add}
use kvisor.Delta.Collect.{Collector, new_delta}
use kvisor.Delta.Collect.History.{
  Handled, Inv, run, run-last_item, last_item, last_settled, skipped,
}
use kvisor.Delta.Controller.{Controller}
use kvisor.Delta.Controller.Delivery.{Signal, event, sends, System}
use kvisor.Delta.Controller.Delivery as Delivery
use kvisor.Delta.Controller.Races.{event_during_send_lost, served, raced}
use kvisor.Delta.Controller.Resync.{resync_restores}
use kvisor.Delta.Controller.Delivery.{receive}
use kvisor.Delta.Collect.{resync}
use kvisor.Samples.{web_pod, web_node, outside}

abbrev collector : Collector
collector = new_delta []

collector-Inv : Inv collector
collector-Inv = record { cache_map = tt; cache_keyed = tt; snapshot_map = tt; snapshot_keyed = tt }

-- The owner of a pod is not known at first.
abbrev early : Outside
early = record outside { get_pod_owner_id = λ p. "" }

abbrev history : List Handled
history =
    (early, (event_add, pod web_pod))
    ∷ (outside, (event_update, pod web_pod))
    ∷ (outside, (event_delete, node web_node))
    ∷ []

run-last_item_example :
    (lookup "p1" (run collector history).cache ≡ last_item (skipped collector) "p1" none history)
    × (lookup "p1" (run collector history).snapshot_state
        ≡ last_settled (skipped collector) "p1" none history)
unfolding lookup
run-last_item_example = run-last_item "p1" collector history

abbrev signals : List Signal
signals =
    event outside event_add (pod web_pod)
    ∷ sends false
    ∷ event outside event_add (node web_node)
    ∷ []

abbrev controller : Controller
controller = record { delta = collector; initialized = true }

-- A node is being sent when the web pod comes.
abbrev node_item : DeltaItem
node_item = record {
  event = type_add;
  object_uid = "u1";
  object_name = "n1";
  object_namespace = "";
  object_kind = "Node";
  object_api_version = "v1";
  object_created_at = 0;
  object_owner_uid = "";
  object_labels = [];
  object_annotations = [];
  object_containers = [];
  object_status = "{}";
  object_spec = "{}";
}

abbrev sending : Controller
sending = record {
  delta = record {
    cache = ("u1", node_item) ∷ [];
    snapshot_state = ("u1", node_item) ∷ [];
    skippers = [];
  };
  initialized = true;
}

sending-Inv : Inv sending.delta
unfolding lookup
sending-Inv = record {
  cache_map = (refl, tt);
  cache_keyed = (refl, tt);
  snapshot_map = (refl, tt);
  snapshot_keyed = (refl, tt);
}

not_sent : lookup "p1" sending.delta.cache ≡ none
unfolding lookup
not_sent = ground (arith, eq_str-test "u1" "p1")

event_during_send_lost_example :
    (lookup "p1" (served outside sending [] event_add (pod web_pod)) ≡ none)
    × (lookup "p1" (raced outside sending [] event_add (pod web_pod)).delta.cache ≡ none)
    × (lookup "p1" (raced outside sending [] event_add (pod web_pod)).delta.snapshot_state ≢ none)
unfolding lookup
event_during_send_lost_example =
    event_during_send_lost outside sending [] event_add (pod web_pod) sending-Inv (λ e. cc) refl
      not_sent refl (λ e. cc)

abbrev full_controller : Controller
full_controller = record {
  delta = record collector { cache = ("u1", make_item outside event_add (node web_node)) ∷ [] };
  initialized = false;
}

resync_restores_example :
    lookup "p1" (receive [] (resync true (run (new_delta []) history).snapshot_state))
    ≡ lookup "p1" (run (new_delta []) history).snapshot_state
resync_restores_example = resync_restores history [] "p1"
