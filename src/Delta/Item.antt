-- ===== src/Delta/Item.antt =====
-- delta/delta.go: how an object and an event become a `castai.DeltaItem` (castai/delta_types.go).
use kvisor.Base.{ℕ, String, GoMap, List, [], ◌∷◌, ◌++◌, map, Option, none, some, Bool}
use kvisor.Kube.Object.{
  Meta, Pod, Object, PodSpec, get_meta, pod, node, deployment, stateful_set, daemon_set, job,
  cron_job, service, ingress, Event, event_add, event_update, event_delete,
}

-- `castai.EventType`.
pub data EventType : Type 0 where
  type_add type_update type_delete : EventType

-- `castai.Container`.
pub record Container : Type 0 where
  pub name : String
  pub image_name : String

pub record DeltaItem : Type 0 where
  pub event : EventType
  pub object_uid : String
  pub object_name : String
  pub object_namespace : String
  pub object_kind : String
  pub object_api_version : String
  pub object_created_at : ℕ
  pub object_owner_uid : String
  pub object_labels : GoMap String
  pub object_annotations : GoMap String
  pub object_containers : List Container
  pub object_status : String
  pub object_spec : String

pub record Delta : Type 0 where
  pub full_snapshot : Bool
  pub items : List DeltaItem

-- What the collector takes from outside as it handles an event: `json.Marshal` of an object's status
-- and spec, with `none` for an error, and `GetPodOwnerID` of the kube controller, which reads the index
-- as it is at that time. Each event of a history has its own.
pub record Outside : Type 0 where
  pub marshal_status : Object → Option String
  pub marshal_spec : Object → Option String
  pub get_pod_owner_id : Pod → String

unfoldable pub to_castai_event : Event → EventType
to_castai_event event_add = type_add
to_castai_event event_update = type_update
to_castai_event event_delete = type_delete

unfoldable pub get_annotations : Object → GoMap String
get_annotations (service m) = m.annotations
get_annotations (ingress m) = m.annotations
get_annotations _ = []

unfoldable pub get_owner_uid : Outside → Object → String
get_owner_uid out (pod p) = out.get_pod_owner_id p
get_owner_uid out o = elim (get_meta o).owner_references [ [] ↦ "" | ref ∷ _ ↦ ref.uid ]

append_containers : PodSpec → List Container
append_containers spec =
    map (λ c. record { name = c.name; image_name = c.image })
      (spec.containers ++ spec.init_containers)

-- The containers, and the status if it is read for the type and could be marshalled.
unfoldable pub get_containers_and_status : Outside → Object → List Container × Option String
unfolding append_containers
get_containers_and_status out (job v) = (append_containers v.template, out.marshal_status (job v))
get_containers_and_status out (cron_job v) =
    (append_containers v.template, out.marshal_status (cron_job v))
get_containers_and_status out (pod v) = (append_containers v.spec, out.marshal_status (pod v))
get_containers_and_status out (deployment v) =
    (append_containers v.template, out.marshal_status (deployment v))
get_containers_and_status out (stateful_set v) =
    (append_containers v.template, out.marshal_status (stateful_set v))
get_containers_and_status out (daemon_set v) =
    (append_containers v.template, out.marshal_status (daemon_set v))
get_containers_and_status out (ingress m) = ([], out.marshal_status (ingress m))
get_containers_and_status out (service m) = ([], out.marshal_status (service m))
get_containers_and_status out (node v) = ([], out.marshal_status (node v))
get_containers_and_status out _ = ([], some "")

unfoldable pub get_object_spec : Outside → Object → Option String
get_object_spec out (ingress m) = out.marshal_spec (ingress m)
get_object_spec out (service m) = out.marshal_spec (service m)
get_object_spec out (deployment v) = out.marshal_spec (deployment v)
get_object_spec out (stateful_set v) = out.marshal_spec (stateful_set v)
get_object_spec out (daemon_set v) = out.marshal_spec (daemon_set v)
get_object_spec out _ = some ""

-- An error is logged, and the field stays empty.
abbrev pub or_empty : Option String → String
or_empty none = ""
or_empty (some text) = text

-- The item that `add` builds.
unfoldable pub make_item : Outside → Event → Object → DeltaItem
unfolding to_castai_event get_annotations get_owner_uid get_containers_and_status get_object_spec
make_item out event obj = record {
  event = to_castai_event event;
  object_uid = m.uid;
  object_name = m.name;
  object_namespace = m.namespace;
  object_kind = m.kind;
  object_api_version = m.api_version;
  object_created_at = m.created_at;
  object_owner_uid = get_owner_uid out obj;
  object_labels = m.labels;
  object_annotations = get_annotations obj;
  object_containers = (get_containers_and_status out obj).0;
  object_status = or_empty (get_containers_and_status out obj).1;
  object_spec = or_empty (get_object_spec out obj);
}
  where
    m : Meta
    m = get_meta obj
