-- ===== src/Kube/Index/History.antt =====
-- The index is a function of the history: for each UID, the last event about an object with it.
use kvisor.Base.{
  String, lookup, lookup-insert, lookup-delete, ◌≡◌, refl, List, [], ◌∷◌, Option, none, some, ite,
  str_dec,
}
use kvisor.Kube.Object.{
  Workload, Deployment, Object, Event, event_add, event_update, event_delete, replica_set,
  deployment, job,
}
use kvisor.Kube.Index.{
  Controller, apply_event, handle_delta_upsert, handle_delta_delete, new_controller,
}
use kvisor.Kube.Index.Invariant.{run}

unfoldable pub as_replica_set : Object → Option Workload
as_replica_set (replica_set v) = some v
as_replica_set _ = none

unfoldable pub as_deployment : Object → Option Deployment
as_deployment (deployment v) = some v
as_deployment _ = none

unfoldable pub as_job : Object → Option Workload
as_job (job v) = some v
as_job _ = none

abbrev pub outcome {ℓ} : {V : Type ℓ} → Event → V → Option V
outcome event_delete v = none
outcome event_add v = some v
outcome event_update v = some v

-- What the last event about an object with UID `k`, of the kind that `select` picks, left behind;
-- `old` if there was no such event.
module _ {V : Type 0} (select : Object → Option V) (uid : V → String) (k : String) where
  pub said : Option V → Event × Object → Option V
  said old (event_type, o) = elim (select o) [
    | none ↦ old
    | some v ↦ ite (str_dec (uid v) k) (outcome event_type v) old
  ]

  pub last_said : Option V → List (Event × Object) → Option V
  last_said old [] = old
  last_said old (ev ∷ evs) = last_said (said old ev) evs

module _ (k : String) (c : Controller) where
  replica_sets_step :
      (ev : Event × Object)
      → lookup k (apply_event c ev).replica_sets
        ≡ said as_replica_set (λ v. v.uid) k (lookup k c.replica_sets) ev
  unfolding apply_event handle_delta_upsert handle_delta_delete said as_replica_set
  replica_sets_step (event_add, replica_set v) = lookup-insert v.uid k v c.replica_sets
  replica_sets_step (event_update, replica_set v) = lookup-insert v.uid k v c.replica_sets
  replica_sets_step (event_delete, replica_set v) = lookup-delete v.uid k c.replica_sets
  replica_sets_step (event_add, _) = refl
  replica_sets_step (event_update, _) = refl
  replica_sets_step (event_delete, _) = refl

  deployments_step :
      (ev : Event × Object)
      → lookup k (apply_event c ev).deployments
        ≡ said as_deployment (λ v. v.uid) k (lookup k c.deployments) ev
  unfolding apply_event handle_delta_upsert handle_delta_delete said as_deployment
  deployments_step (event_add, deployment v) = lookup-insert v.uid k v c.deployments
  deployments_step (event_update, deployment v) = lookup-insert v.uid k v c.deployments
  deployments_step (event_delete, deployment v) = lookup-delete v.uid k c.deployments
  deployments_step (event_add, _) = refl
  deployments_step (event_update, _) = refl
  deployments_step (event_delete, _) = refl

  jobs_step :
      (ev : Event × Object)
      → lookup k (apply_event c ev).jobs ≡ said as_job (λ v. v.uid) k (lookup k c.jobs) ev
  unfolding apply_event handle_delta_upsert handle_delta_delete said as_job
  jobs_step (event_add, job v) = lookup-insert v.uid k v c.jobs
  jobs_step (event_update, job v) = lookup-insert v.uid k v c.jobs
  jobs_step (event_delete, job v) = lookup-delete v.uid k c.jobs
  jobs_step (event_add, _) = refl
  jobs_step (event_update, _) = refl
  jobs_step (event_delete, _) = refl

abbrev pub replica_set_history : String → Option Workload → List (Event × Object) → Option Workload
replica_set_history = last_said as_replica_set (λ v. v.uid)

abbrev pub deployment_history :
    String → Option Deployment → List (Event × Object) → Option Deployment
deployment_history = last_said as_deployment (λ v. v.uid)

abbrev pub job_history : String → Option Workload → List (Event × Object) → Option Workload
job_history = last_said as_job (λ v. v.uid)

history_from :
    (k : String) (c : Controller) (evs : List (Event × Object))
    → (lookup k (run c evs).replica_sets ≡ replica_set_history k (lookup k c.replica_sets) evs)
      × (lookup k (run c evs).deployments ≡ deployment_history k (lookup k c.deployments) evs)
      × (lookup k (run c evs).jobs ≡ job_history k (lookup k c.jobs) evs)
unfolding run last_said
history_from k c [] = (refl, refl, refl)
history_from k c (ev ∷ evs) =
    rw (← replica_sets_step k c ev, ← deployments_step k c ev, ← jobs_step k c ev)
      (history_from k (apply_event c ev) evs)

-- From an empty index, after any series of events, a UID leads to the ReplicaSet, the Deployment
-- and the Job of the last event about it, and to nothing if that event was a deletion or if there
-- was none.
pub run-last_said :
    (k ns : String) (evs : List (Event × Object))
    → let c = run (new_controller ns) evs in
      (lookup k c.replica_sets ≡ replica_set_history k none evs)
      × (lookup k c.deployments ≡ deployment_history k none evs)
      × (lookup k c.jobs ≡ job_history k none evs)
unfolding new_controller lookup
run-last_said k ns evs = history_from k (new_controller ns) evs
