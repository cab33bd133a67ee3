-- ===== src/Samples/KubeRuns.antt =====
-- The index, the owners, the informers and the dispatch of events, on the small cluster.
use mathlib.Core.List.{Mem, eq-or-mem_of_mem-cons, not-mem-nil}
use mathlib.Core.List.Perm
use mathlib.Core.Logic.Or
use mathlib.Core.HLevel.{⊥_prop}
use kvisor.Base.{lookup, str_dec, String, ◌≡◌, ap, sym, ◌∙◌, List, [], ◌∷◌, some, none, true, arith}
use kvisor.Kube.Object.{
  Deployment, Object, pod, node, deployment, replica_set, Event, event_add, event_update,
  event_delete,
}
use kvisor.Kube.Index.{Controller, new_controller}
use kvisor.Kube.Index.Invariant.{run}
use kvisor.Kube.Index.History.{run-last_said, replica_set_history, deployment_history, job_history}
use kvisor.Kube.Owners.{get_pod_owner_id}
use kvisor.Kube.Owners.Found.{Owner, get_pod_owner_id-Owner}
use kvisor.Kube.Owners.Order.{get_pod_owner_id-perm, SelectedOnce}
use kvisor.Kube.Dispatch.{Signal, received, ticked}
use kvisor.Kube.Informers.{
  type_informers, required_informers, run_subscriber, linter_subscriber, no_informer,
}
use kvisor.Kube.Object.{type_cron_job}
use kvisor.Kube.Informers.Coverage.{run_subscriber_cases}
use kvisor.Samples.{web_pod, web_node, web_replica_set, web_deployment, by_app}

abbrev history : List (Event × Object)
history =
    (event_add, deployment web_deployment)
    ∷ (event_add, replica_set web_replica_set)
    ∷ (event_delete, deployment web_deployment)
    ∷ []

abbrev index : Controller
index = record {
  kvisor_namespace = "castai-agent";
  replica_sets = ("rs1", web_replica_set) ∷ [];
  deployments = ("d1", web_deployment) ∷ [];
  jobs = [];
}

run-last_said_example :
    let c = run (new_controller "ns") history in
    (lookup "d1" c.replica_sets ≡ replica_set_history "d1" none history)
    × (lookup "d1" c.deployments ≡ deployment_history "d1" none history)
    × (lookup "d1" c.jobs ≡ job_history "d1" none history)
run-last_said_example = run-last_said "d1" "ns" history

get_pod_owner_id-Owner_example : Owner by_app web_pod index (get_pod_owner_id by_app index web_pod)
get_pod_owner_id-Owner_example = get_pod_owner_id-Owner by_app web_pod index

only : {d e : String × Deployment} → Mem d (e ∷ []) → d.1.uid ≡ e.1.uid
only {d} {e} m = elim (str_dec d.1.uid e.1.uid) [
  | yes same ↦ same
  | no other ↦ absurd (
      Or.elim ⊥_prop (eq-or-mem_of_mem-cons m) (λ same. other (ap (λ x. x.1.uid) same)) not-mem-nil)
]

one_deployment : SelectedOnce by_app web_pod index.deployments
one_deployment d e m n s t = only m ∙ sym (only n)

get_pod_owner_id-perm_example :
    get_pod_owner_id by_app index web_pod
    ≡ get_pod_owner_id by_app (record index { deployments = ("d1", web_deployment) ∷ [] }) web_pod
get_pod_owner_id-perm_example =
    get_pod_owner_id-perm by_app index web_pod (("d1", web_deployment) ∷ [])
      (Perm.refl index.deployments) one_deployment

abbrev signals : List Signal
signals =
    received (event_add, pod web_pod)
    ∷ received (event_add, node web_node)
    ∷ ticked
    ∷ received (event_update, pod web_pod)
    ∷ []

run_subscriber_cases_example :
    run_subscriber (type_informers 20) (required_informers 20 linter_subscriber) true
    ≡ some (no_informer type_cron_job)
run_subscriber_cases_example = (run_subscriber_cases 20 linter_subscriber).1 (omega arith)
