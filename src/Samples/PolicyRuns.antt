-- ===== src/Samples/PolicyRuns.antt =====
-- A pod that the webhook reviews, with one enforced rule, and a configuration.
use mathlib.Core.List.Perm
use mathlib.Core.List.{map}
use kvisor.Base.{
  ◌<◌, shl_one, shl_one-positive, pos, String, GoMap, List, [], ◌∷◌, Option, none, Bool, true,
  false, ◌≡◌, ◌≢◌, refl, ◌⊎◌, inr, arith, has, eq_str-test,
}
use kvisor.Kube.Object.{Object, Meta, namespace_object, service, network_policy}
use kvisor.Linter.RuleSet.Sets.{add_rules, add_rules-below}
use kvisor.Linter.Run.{Check}
use kvisor.Policy.{Enforcer, enforcer_rules, uniq, Reason, allowed, denied, handle, linted_kinds}
use kvisor.Policy.OneObject.{violated_rule}
use kvisor.Policy.Denied.{handle-violates}
use kvisor.Policy.Namespaces.{network_rule, namespace_denied}
use kvisor.Linter.Custom.{network_policy_check, network_policy_messages}
use kvisor.Kube.Transform.{add_object_meta}
use kvisor.Kube.Transform.Policies.{no_policy_found}
use kvisor.Config.{Config, load, set_defaults}
use kvisor.Config.Defaults.{Usable, load-Usable}
use kvisor.Samples.{meta_of}

abbrev names : List String
names = "ssh-port" ∷ "docker-sock" ∷ "unheard-of" ∷ []

add_rules-below_example : add_rules 0 names < shl_one 42
add_rules-below_example = add_rules-below names 0 (shl_one-positive 42)

abbrev web_service : Object
web_service = service (meta_of "Service" "web" "s1" [])

abbrev ssh_check : Check
ssh_check = record {
  name = "ssh-port";
  matches = λ obj. true;
  func = λ objects obj. "port 22 is open" ∷ [];
}

abbrev enforcer : Enforcer
enforcer = record { enforced_rules = "ssh-port" ∷ []; bundle_rules = [] }

abbrev decoded : String → Unit {0} → String ⊎ Object
decoded kind raw = inr web_service

abbrev never_ignored : GoMap String → String → Bool
never_ignored annotations check = false

some_enforced : enforcer_rules enforcer ≢ []
unfolding enforcer_rules uniq
some_enforced e = cc

service_linted : has "Service" linted_kinds ≡ true
service_linted = ground (arith, eq_str-test "Service" "Service")

handle-violates_example :
    let response = handle decoded (λ xs. xs) never_ignored (ssh_check ∷ []) enforcer "Service" tt in
    ((named : List String) × (response ≡ denied "Service" named)
      × (named ≢ [])
      × ((rule : String)
          → has rule named
            ≡ violated_rule never_ignored
                (ssh_check ∷ [])
                (enforcer_rules enforcer)
                web_service
                rule))
    ⊎ ((reason : Reason) × (response ≡ allowed reason)
        × ((rule : String)
            → violated_rule never_ignored
                (ssh_check ∷ [])
                (enforcer_rules enforcer)
                web_service
                rule
              ≡ false))
handle-violates_example =
    handle-violates never_ignored decoded (λ xs. xs) (λ xs. Perm.refl xs) (ssh_check ∷ []) enforcer
      "Service" tt web_service some_enforced service_linted refl refl

abbrev written : Config
written = record {
  pod_ip = "";
  pod_namespace = "castai-agent";
  service_name = "kvisor";
  service_port = pos 443;
  certs_dir = "";
  certs_secret = "";
  leader_election = false;
  policy_enforcement = record { enabled = false; webhook_name = ""; bundles = [] };
  kube_client = record { qps = pos 0; burst = pos 0; kube_config_path = ""; use_protobuf = true };
  log_level = "info";
  api = record { key = "secret"; url = "https://api.cast.ai"; cluster_id = "c1" };
  http_port = pos 0;
  status_port = pos 0;
  provider = "gke";
  delta_sync_interval = pos 0;
  image_scan = record {
    enabled = true;
    scan_interval = pos 0;
    scan_timeout = pos 0;
    max_concurrent_scans = pos 0;
    pull_policy = "";
    mode = "";
    api_url = "";
    docker_options_path = "";
    cpu_request = "";
    cpu_limit = "";
    memory_request = "";
    memory_limit = "";
    profile_enabled = false;
    phlare_enabled = false;
    pull_secret = "";
    init_delay = pos 0;
    service_account_name = "";
  };
  linter = record { enabled = true; scan_interval = pos 0 };
  kube_bench = record { enabled = false; force = false; scan_interval = pos 0; pull_policy = "" };
  cloud_scan = record {
    enabled = false;
    scan_interval = pos 0;
    gke = none;
    eks_cluster_name = none;
  };
  telemetry_interval = pos 0;
}

abbrev any_level : String → Option String
any_level level = none

accepted : load any_level written ≡ inr (set_defaults written)
unfolding load
accepted = ground (
  arith,
  eq_str-test "https://api.cast.ai" "",
  eq_str-test "secret" "",
  eq_str-test "c1" "",
  eq_str-test "info" "",
)

load-Usable_example :
    Usable any_level (set_defaults written)
    × (load any_level (set_defaults written) ≡ inr (set_defaults written))
load-Usable_example = load-Usable any_level refl written (set_defaults written) accepted

abbrev default_namespace : Meta
default_namespace = meta_of "Namespace" "shop" "ns1" []

abbrev strict : Enforcer
strict = record { enforced_rules = "network-policy-per-namespace" ∷ []; bundle_rules = [] }

abbrev all_kinds : Object → Bool
all_kinds obj = true

abbrev namespace_of : String → Unit {0} → String ⊎ Object
namespace_of kind raw = inr (namespace_object default_namespace)

rule_enforced : has network_rule (enforcer_rules strict) ≡ true
unfolding enforcer_rules uniq
rule_enforced =
    ground (arith, eq_str-test "network-policy-per-namespace" "network-policy-per-namespace")

namespace_denied_example :
    (named : List String) × (handle namespace_of
        (λ xs. xs)
        never_ignored
        (ssh_check ∷ network_policy_check all_kinds ∷ [])
        strict
        "Namespace"
        tt
      ≡ denied "Namespace" named)
    × (has network_rule named ≡ true)
namespace_denied_example =
    namespace_denied all_kinds never_ignored namespace_of (λ xs. xs) (λ xs. Perm.refl xs)
      (ssh_check ∷ []) [] strict tt default_namespace refl refl refl rule_enforced refl refl

abbrev shop_policy : Object
shop_policy =
    network_policy (record (meta_of "NetworkPolicy" "allow" "np1" []) { namespace = "shop" })

no_policy_found_example :
    network_policy_messages
      (map add_object_meta (shop_policy ∷ []))
      (add_object_meta (namespace_object default_namespace))
    ≡ "Namespace does not have any network policy" ∷ []
no_policy_found_example = no_policy_found (shop_policy ∷ []) default_namespace
