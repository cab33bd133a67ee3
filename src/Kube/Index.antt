-- ===== src/Kube/Index.antt =====
-- kube/controller.go: the objects that the controller remembers, and the informer events that
-- change them (`handleEvent`, `handleDeltaUpsert`, `handleDeltaDelete`).
pub mod Invariant
pub mod History
use kvisor.Base.{String, GoMap, insert, delete, List, [], ◌∷◌, Option, none, some}
use kvisor.Kube.Object.{
  Workload, Deployment, Object, pod, node, deployment, replica_set, stateful_set, daemon_set, job,
  cron_job, cron_job_beta, service, ingress, network_policy, namespace_object, cluster_role_binding,
  role_binding, cluster_role, role, Event, event_add, event_update, event_delete,
}

pub record Controller : Type 0 where
  pub kvisor_namespace : String
  pub replica_sets : GoMap Workload
  pub deployments : GoMap Deployment
  pub jobs : GoMap Workload

-- `NewController`, as far as the index goes.
unfoldable pub new_controller : String → Controller
new_controller kvisor_namespace = record {
  kvisor_namespace = kvisor_namespace;
  replica_sets = [];
  deployments = [];
  jobs = [];
}

unfoldable pub handle_delta_upsert : Controller → Object → Controller
handle_delta_upsert c (replica_set v) = record c { replica_sets = insert v.uid v c.replica_sets }
handle_delta_upsert c (deployment v) = record c { deployments = insert v.uid v c.deployments }
handle_delta_upsert c (job v) = record c { jobs = insert v.uid v c.jobs }
handle_delta_upsert c _ = c

unfoldable pub handle_delta_delete : Controller → Object → Controller
handle_delta_delete c (replica_set v) = record c { replica_sets = delete v.uid c.replica_sets }
handle_delta_delete c (deployment v) = record c { deployments = delete v.uid c.deployments }
handle_delta_delete c (job v) = record c { jobs = delete v.uid c.jobs }
handle_delta_delete c _ = c

-- What an informer hands over: an object, a tombstone (whose payload may be no object), or a value
-- of another type.
pub data EventObject : Type 0 where
  live : Object → EventObject
  tombstone : Option Object → EventObject
  foreign : EventObject

-- The object and the type of the event, if the event is not dropped with an error.
unfoldable pub resolve_event : EventObject → Event → Option (Event × Object)
resolve_event (live obj) event_type = some (event_type, obj)
resolve_event (tombstone (some obj)) event_type = some (event_delete, obj)
resolve_event (tombstone none) event_type = none
resolve_event foreign event_type = none

unfoldable pub apply_event : Controller → Event × Object → Controller
apply_event c (event_add, obj) = handle_delta_upsert c obj
apply_event c (event_update, obj) = handle_delta_upsert c obj
apply_event c (event_delete, obj) = handle_delta_delete c obj

-- One entry for each subscriber: the same event goes to every channel, in order.
unfoldable pub notify {ℓ} : {S : Type ℓ} → List S → Event × Object → List (S × (Event × Object))
notify [] ev = []
notify (sub ∷ subs) ev = (sub, ev) ∷ notify subs ev

-- The new index, and what is sent to the subscribers' channels.
unfoldable pub handle_event {ℓ} :
    {S : Type ℓ}
    → Controller
    → EventObject
    → Event
    → List S
    → Controller × List (S × (Event × Object))
handle_event c event_object event_type subs = elim (resolve_event event_object event_type) [
  | none ↦ (c, [])
  | some ev ↦ (apply_event c ev, notify subs ev)
]
