-- ===== src/Linter/Lint/Rounds.antt =====
-- What waits for the linter, and what a failed round leaves.
use kvisor.Base.{
  String, GoMap, AllEntries, lookup, insert-AllEntries, delete-AllEntries, values, ◌≡◌, refl, List,
  [], ◌∷◌, Option, none, some, All, Bool, true, false, ite, str_dec, Bool-cases, inl, inr,
}
use kvisor.Kube.Object.{Object, get_uid, pod, Event, event_add, event_update, event_delete}
use kvisor.Linter.Lint.{
  upsert, delete_object, flush, is_accepted, modify_delta, modify_all, apply_event,
}

abbrev pub or_else {ℓ} : {A : Type ℓ} → Option A → Option A → Option A
or_else none o = o
or_else (some a) o = some a

abbrev pub IsUpsert : Event × Object → Type 0
IsUpsert (event_delete, o) = ⊥
IsUpsert _ = Unit

-- The first object of the list with the UID.
abbrev find_uid : String → List Object → Option Object
find_uid k [] = none
find_uid k (o ∷ os) = or_else (ite (str_dec (get_uid o) k) (some o) none) (find_uid k os)

-- `later` is the map that results from an empty map by the same events as `all` from `before`.
abbrev Extends : GoMap Object → GoMap Object → GoMap Object → Type 0
Extends before later all = (k : String) → lookup k all ≡ or_else (lookup k later) (lookup k before)

abbrev pub is_pod : Object → Bool
is_pod (pod v) = true
is_pod _ = false

abbrev NotPod : String → Object → Type 0
NotPod k o = is_pod o ≡ false

upsert-NotPod :
    (objects : GoMap Object) (o : Object)
    → AllEntries NotPod objects
    → AllEntries NotPod (upsert objects o)
unfolding upsert
upsert-NotPod objects (pod v) h = h
upsert-NotPod objects _ h = insert-AllEntries NotPod _ _ objects refl h

modify_delta-NotPod :
    (objects : GoMap Object) (ev : Event × Object)
    → AllEntries NotPod objects
    → AllEntries NotPod (modify_delta objects ev)
unfolding modify_delta delete_object
modify_delta-NotPod objects (event, o) h = elim (Bool-cases (is_accepted o)) [
  | inl accepted ↦ rw (accepted, modify_delta) (go event)
  | inr skipped ↦ rw (skipped, modify_delta) h
]
  where
    go : (event : Event) → AllEntries NotPod (apply_event objects event o)
    go event_add = upsert-NotPod objects o h
    go event_update = upsert-NotPod objects o h
    go event_delete = delete-AllEntries NotPod (get_uid o) objects h

modify_all-NotPod :
    (evs : List (Event × Object)) (objects : GoMap Object)
    → AllEntries NotPod objects
    → AllEntries NotPod (modify_all objects evs)
unfolding modify_all
modify_all-NotPod [] objects h = h
modify_all-NotPod (ev ∷ evs) objects h =
    modify_all-NotPod evs (modify_delta objects ev) (modify_delta-NotPod objects ev h)

All-values :
    (objects : GoMap Object)
    → AllEntries NotPod objects
    → All (λ o. is_pod o ≡ false) (values objects)
All-values [] h = tt
All-values ((k, o) ∷ objects) h = (h.0, All-values objects h.1)

-- No pod is ever linted: whatever events arrive, none of the objects that a round takes is a pod,
-- although the controller accepts the additions of standalone pods.
pub flush_without_pods :
    (evs : List (Event × Object)) → All (λ o. is_pod o ≡ false) (flush (modify_all [] evs))
unfolding flush
flush_without_pods evs = All-values (modify_all [] evs) (modify_all-NotPod evs [] tt)
