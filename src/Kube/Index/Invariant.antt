-- ===== src/Kube/Index/Invariant.antt =====
-- The index holds each object once, under its own UID, and follows the informer events.
use kvisor.Base.{
  String, GoMap, IsMap, lookup, insert, delete, insert-IsMap, delete-IsMap, lookup-insert,
  lookup-delete, ◌≡◌, List, [], ◌∷◌, some, inl, inr, arith, Option-cases,
}
use kvisor.Kube.Object.{
  Workload, Deployment, Object, Event, event_add, event_update, event_delete, replica_set,
  deployment, job,
}
use kvisor.Kube.Index.{
  Controller, new_controller, handle_delta_upsert, handle_delta_delete, EventObject, apply_event,
  handle_event, resolve_event,
}

abbrev pub Keyed {ℓ} : {V : Type ℓ} → (V → String) → GoMap V → Type ℓ
Keyed {V} uid m = (k : String) (v : V) → lookup k m ≡ some v → uid v ≡ k

pub record Inv (c : Controller) : Type 0 where
  pub replica_sets_map : IsMap c.replica_sets
  pub deployments_map : IsMap c.deployments
  pub jobs_map : IsMap c.jobs
  pub replica_sets_keyed : Keyed (λ (v : Workload). v.uid) c.replica_sets
  pub deployments_keyed : Keyed (λ (v : Deployment). v.uid) c.deployments
  pub jobs_keyed : Keyed (λ (v : Workload). v.uid) c.jobs

module _ {ℓ} {V : Type ℓ} (uid : V → String) (m : GoMap V) (h : Keyed uid m) where
  insert-Keyed : (v : V) → Keyed uid (insert (uid v) v m)
  insert-Keyed v k w e = ground (arith, lookup-insert (uid v) k v m, h k w)

  delete-Keyed : (j : String) → Keyed uid (delete j m)
  delete-Keyed j k w e = ground (arith, lookup-delete j k m, h k w)

pub new_controller-Inv : (ns : String) → Inv (new_controller ns)
unfolding new_controller lookup
new_controller-Inv ns = record {
  replica_sets_map = tt;
  deployments_map = tt;
  jobs_map = tt;
  replica_sets_keyed = λ k v e. cc;
  deployments_keyed = λ k v e. cc;
  jobs_keyed = λ k v e. cc;
}

upsert-Inv : (c : Controller) (o : Object) → Inv c → Inv (handle_delta_upsert c o)
unfolding handle_delta_upsert
upsert-Inv c (replica_set v) h = record {
  replica_sets_map = insert-IsMap v.uid v c.replica_sets h.replica_sets_map;
  deployments_map = h.deployments_map;
  jobs_map = h.jobs_map;
  replica_sets_keyed = insert-Keyed (λ v. v.uid) c.replica_sets h.replica_sets_keyed v;
  deployments_keyed = h.deployments_keyed;
  jobs_keyed = h.jobs_keyed;
}
upsert-Inv c (deployment v) h = record {
  replica_sets_map = h.replica_sets_map;
  deployments_map = insert-IsMap v.uid v c.deployments h.deployments_map;
  jobs_map = h.jobs_map;
  replica_sets_keyed = h.replica_sets_keyed;
  deployments_keyed = insert-Keyed (λ v. v.uid) c.deployments h.deployments_keyed v;
  jobs_keyed = h.jobs_keyed;
}
upsert-Inv c (job v) h = record {
  replica_sets_map = h.replica_sets_map;
  deployments_map = h.deployments_map;
  jobs_map = insert-IsMap v.uid v c.jobs h.jobs_map;
  replica_sets_keyed = h.replica_sets_keyed;
  deployments_keyed = h.deployments_keyed;
  jobs_keyed = insert-Keyed (λ v. v.uid) c.jobs h.jobs_keyed v;
}
upsert-Inv c _ h = h

delete-Inv : (c : Controller) (o : Object) → Inv c → Inv (handle_delta_delete c o)
unfolding handle_delta_delete
delete-Inv c (replica_set v) h = record {
  replica_sets_map = delete-IsMap v.uid c.replica_sets h.replica_sets_map;
  deployments_map = h.deployments_map;
  jobs_map = h.jobs_map;
  replica_sets_keyed = delete-Keyed (λ v. v.uid) c.replica_sets h.replica_sets_keyed v.uid;
  deployments_keyed = h.deployments_keyed;
  jobs_keyed = h.jobs_keyed;
}
delete-Inv c (deployment v) h = record {
  replica_sets_map = h.replica_sets_map;
  deployments_map = delete-IsMap v.uid c.deployments h.deployments_map;
  jobs_map = h.jobs_map;
  replica_sets_keyed = h.replica_sets_keyed;
  deployments_keyed = delete-Keyed (λ v. v.uid) c.deployments h.deployments_keyed v.uid;
  jobs_keyed = h.jobs_keyed;
}
delete-Inv c (job v) h = record {
  replica_sets_map = h.replica_sets_map;
  deployments_map = h.deployments_map;
  jobs_map = delete-IsMap v.uid c.jobs h.jobs_map;
  replica_sets_keyed = h.replica_sets_keyed;
  deployments_keyed = h.deployments_keyed;
  jobs_keyed = delete-Keyed (λ v. v.uid) c.jobs h.jobs_keyed v.uid;
}
delete-Inv c _ h = h

apply_event-Inv : (c : Controller) (ev : Event × Object) → Inv c → Inv (apply_event c ev)
unfolding apply_event
apply_event-Inv c (event_add, o) h = upsert-Inv c o h
apply_event-Inv c (event_update, o) h = upsert-Inv c o h
apply_event-Inv c (event_delete, o) h = delete-Inv c o h

-- Whatever an informer hands over, with whatever event type, the index keeps each object once and
-- under its own UID.
pub handle_event-Inv {ℓ} :
    {S : Type ℓ} (c : Controller) (e : EventObject) (event_type : Event) (subs : List S)
    → Inv c
    → Inv (handle_event c e event_type subs).0
unfolding handle_event
handle_event-Inv c e event_type subs h = elim (Option-cases (resolve_event e event_type)) [
  | inl none_e ↦ rw (none_e, handle_event) h
  | inr (ev, some_e) ↦ rw (some_e, handle_event) (apply_event-Inv c ev h)
]

-- The controller after a series of informer events.
unfoldable pub run : Controller → List (Event × Object) → Controller
run c [] = c
run c (ev ∷ evs) = run (apply_event c ev) evs

pub run-Inv : (c : Controller) (evs : List (Event × Object)) → Inv c → Inv (run c evs)
unfolding run
run-Inv c [] h = h
run-Inv c (ev ∷ evs) h = run-Inv (apply_event c ev) evs (apply_event-Inv c ev h)
