-- ===== src/Linter/Lint.antt =====
-- linters/kubelinter/: the objects that wait for the linter (delta.go), the events that change them
-- and the rounds of the linter (controller.go). The linter and the client are outside: whether a
-- round fails is an argument.
pub mod Rounds
use kvisor.Base.{
  String, GoMap, lookup, insert, delete, values, List, [], ◌∷◌, Option, none, some, Bool, true,
  false, eq_str, if◌then◌else◌,
}
use mathlib.Core.List.{reverse}
use kvisor.Kube.Object.{
  Object, Meta, Pod, Workload, get_uid, pod, job, Event, event_add, event_update, event_delete,
}
use kvisor.ImageScan.Runtime.{codes, starts_with}

-- `insert`: an object that is there already stays as it is.
unfoldable pub insert_object : GoMap Object → Object → GoMap Object
insert_object objects o = elim (lookup (get_uid o) objects) [
  | none ↦ insert (get_uid o) o objects
  | some _ ↦ objects
]

unfoldable pub insert_objects : GoMap Object → List Object → GoMap Object
unfolding insert_object
insert_objects objects [] = objects
insert_objects objects (o ∷ os) = insert_objects (insert_object objects o) os

unfoldable pub upsert : GoMap Object → Object → GoMap Object
upsert objects (pod v) = objects
upsert objects o = insert (get_uid o) o objects

unfoldable pub delete_object : GoMap Object → Object → GoMap Object
delete_object objects o = delete (get_uid o) objects

-- The objects that `flush` returns; it leaves an empty map.
unfoldable pub flush : GoMap Object → List Object
flush objects = values objects

-- `strings.HasSuffix`.
abbrev pub has_suffix : String → String → Bool
has_suffix text suffix = starts_with (reverse (codes suffix)) (reverse (codes text))

unfoldable pub is_standalone_pod : Pod → Bool
is_standalone_pod p =
    if eq_str p.spec.node_name ""
    then false
    else elim p.owner_references [ [] ↦ true | _ ∷ _ ↦ has_suffix p.name p.spec.node_name ]

unfoldable pub is_standalone_job : Workload → Bool
is_standalone_job v = elim v.owner_references [ [] ↦ true | _ ∷ _ ↦ false ]

-- Whether `modifyDelta` goes on with the object.
unfoldable pub is_accepted : Object → Bool
unfolding is_standalone_pod is_standalone_job
is_accepted (pod p) = is_standalone_pod p
is_accepted (job v) = is_standalone_job v
is_accepted _ = true

abbrev pub apply_event : GoMap Object → Event → Object → GoMap Object
apply_event objects event_add o = upsert objects o
apply_event objects event_update o = upsert objects o
apply_event objects event_delete o = delete_object objects o

unfoldable pub modify_delta : GoMap Object → Event × Object → GoMap Object
unfolding is_accepted upsert delete_object
modify_delta objects (event, o) = if is_accepted o then apply_event objects event o else objects

unfoldable pub modify_all : GoMap Object → List (Event × Object) → GoMap Object
unfolding modify_delta
modify_all objects [] = objects
modify_all objects (ev ∷ evs) = modify_all (modify_delta objects ev) evs

-- A round of `Run` on the objects, with the events that arrive while they are linted: what waits
-- afterwards.
unfoldable pub lint_round : GoMap Object → List (Event × Object) → Bool → GoMap Object
unfolding modify_all flush insert_objects
lint_round objects evs failed =
    if failed then insert_objects (modify_all [] evs) (flush objects) else modify_all [] evs
