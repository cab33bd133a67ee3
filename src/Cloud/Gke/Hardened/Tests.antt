-- ===== src/Cloud/Gke/Hardened/Tests.antt =====
-- The tests of the checks, and the description of the hardened cluster.
use kvisor.Base.{
  String, List, [], ◌∷◌, Option, none, some, Bool, true, false, not, ◌&&◌, ◌||◌, All, any, eq_str,
  eq_str-test, ◌≡◌, ◌≢◌, ◌↔◌, ◌⊎◌, arith,
}
use kvisor.Linter.Lint.{has_suffix}
use kvisor.Cloud.Gke.{NodeConfig, NodePool, Cluster, AuthenticatorGroupsConfig}
use kvisor.Cloud.Gke.Pools.{
  has_default_account, legacy_endpoints_enabled, no_metadata_server, not_container_optimized,
  no_integrity_monitoring, no_secure_boot, no_sandbox,
}
use kvisor.Cloud.Gke.Settings.{is_on, is_named}
use kvisor.Cloud.Gke.Access.{BinaryPolicy, allows_all, has_prefix}
use kvisor.Cloud.Gke.Failing.{on_given, unmanaged, no_config}
use kvisor.Cloud.Gke.Scan.{binary_policy}
use kvisor.Cloud.Gke.Hardened.{
  IsHardenedNode, HasHardenedNodes, IsHardenedPool, IsHardenedNetwork, HasIdentities, HasGroups,
  IsHardenedAccess, HasHardenedImages, IsShielded, HasShielding,
}

-- The tests on a node's configuration, together.
abbrev pub fails_none : NodeConfig → Bool
fails_none config = not (
    has_default_account config
    || legacy_endpoints_enabled config
    || no_metadata_server config
    || not_container_optimized config
    || no_integrity_monitoring config
    || no_secure_boot config
    || no_sandbox config)

fails_none-IsHardenedNode :
    (config : NodeConfig)
    → config.shielded_instance_config ≢ none
    → (fails_none config ≡ true) ↔ IsHardenedNode config
fails_none-IsHardenedNode config given = ground arith

-- The tests of the checks of the cluster itself.
abbrev pub channel_ok : Option String → Bool
channel_ok none = true
channel_ok (some channel) = eq_str channel "REGULAR" || eq_str channel "STABLE"

abbrev pub private_endpoint : Cluster → Bool
private_endpoint cl = elim cl.private_cluster_config [
  | none ↦ false
  | some config ↦ config.enable_private_endpoint
]

abbrev pub private_nodes : Cluster → Bool
private_nodes cl = elim cl.private_cluster_config [
  | none ↦ false
  | some config ↦ config.enable_private_nodes
]

abbrev pub NetworkPasses : Cluster → Type 0
NetworkPasses cl =
    (is_on cl.network_policy_enabled ≡ true)
    × (is_named "ENCRYPTED" cl.database_encryption_state ≡ true)
    × (channel_ok cl.release_channel ≡ true)
    × (is_on cl.shielded_nodes_enabled ≡ true)
    × (is_on cl.enable_intra_node_visibility ≡ true)
    × (is_on cl.use_ip_aliases ≡ true)
    × (is_on cl.master_authorized_networks_enabled ≡ true)
    × (private_endpoint cl ≡ true)
    × (private_nodes cl ≡ true)
    × (is_on cl.network_policy_enabled ≡ true)

abbrev pub workload_identity : Cluster → Bool
workload_identity cl = elim cl.workload_pool [
  | none ↦ false
  | some pool ↦ not (eq_str pool "" || not (has_suffix pool "svc.id.goog"))
]

abbrev pub no_password : Cluster → Bool
no_password cl = elim cl.master_auth [
  | none ↦ true
  | some auth ↦ not (not (eq_str auth.username "") || not (eq_str auth.password ""))
]

abbrev pub no_client_key : Cluster → Bool
no_client_key cl = elim cl.master_auth [
  | none ↦ true
  | some auth ↦ not (not (eq_str auth.client_key ""))
]

abbrev pub google_groups : Cluster → Bool
google_groups cl = elim cl.authenticator_groups_config [
  | none ↦ false
  | some config ↦
      not (not config.enabled || not (has_prefix config.security_group "gke-security-groups"))
]

abbrev pub dashboard_disabled : Cluster → Bool
dashboard_disabled cl = elim cl.kubernetes_dashboard_disabled [
  | none ↦ true
  | some dashboard ↦ elim dashboard [ none ↦ true | some disabled ↦ not (not disabled) ]
]

abbrev pub AccessPasses : Cluster → Type 0
AccessPasses cl =
    (workload_identity cl ≡ true)
    × (not (eq_str cl.logging_service "none" || eq_str cl.monitoring_service "none") ≡ true)
    × (no_password cl ≡ true)
    × (no_client_key cl ≡ true)
    × (google_groups cl ≡ true)
    × (not (is_on cl.legacy_abac_enabled) ≡ true)
    × (dashboard_disabled cl ≡ true)
    × (not cl.enable_kubernetes_alpha ≡ true)

abbrev pub binary_ok : String → Option String → Option BinaryPolicy → Bool
binary_ok state mode policy =
    not (eq_str state "DISABLED")
    && (is_named "PROJECT_SINGLETON_POLICY_ENFORCE" mode && not (allows_all policy))

abbrev pub ImagesPass : Cluster → Bool → String → String → Option BinaryPolicy → Type 0
ImagesPass cl img_scan_enabled container_scan binary_auth policy =
    (not (eq_str container_scan "DISABLED" && not img_scan_enabled) ≡ true)
    × (binary_ok binary_auth cl.binary_authorization_mode policy ≡ true)

pub NetworkPasses-IsHardenedNetwork :
    (cl : Cluster) → cl.release_channel ≢ none → NetworkPasses cl ↔ IsHardenedNetwork cl
NetworkPasses-IsHardenedNetwork cl given = ground arith

identities :
    (o : Option String)
    → (elim o as (λ _. Bool) [
      | none ↦ false
      | some pool ↦ not (eq_str pool "" || not (has_suffix pool "svc.id.goog"))
    ]
        ≡ true)
      ↔ HasIdentities o
identities none = ground arith
identities (some pool) = ground arith

groups :
    (o : Option AuthenticatorGroupsConfig)
    → (elim o as (λ _. Bool) [
      | none ↦ false
      | some config ↦
          not (not config.enabled || not (has_prefix config.security_group "gke-security-groups"))
    ]
        ≡ true)
      ↔ HasGroups o
groups none = ground arith
groups (some config) = ground arith

pub AccessPasses-IsHardenedAccess : (cl : Cluster) → AccessPasses cl ↔ IsHardenedAccess cl
AccessPasses-IsHardenedAccess cl =
    ground (arith, identities cl.workload_pool, groups cl.authenticator_groups_config)

pub ImagesPass-HasHardenedImages :
    (cl : Cluster) (img_scan_enabled : Bool) (container_scan binary_auth : String)
    (answer : String ⊎ BinaryPolicy)
    → ImagesPass cl img_scan_enabled container_scan binary_auth (binary_policy binary_auth answer)
      ↔ HasHardenedImages cl img_scan_enabled container_scan binary_auth answer
unfolding binary_policy
ImagesPass-HasHardenedImages cl img_scan_enabled container_scan binary_auth answer =
    ground (arith, eq_str-test "ENABLED" "DISABLED")

-- The tests of the checks of the pools.
abbrev pub NoneFails : (NodeConfig → Bool) → List NodePool → Type 0
NoneFails test pools = not (any (on_given test) pools) ≡ true

abbrev pub PoolsPass : List NodePool → Type 0
PoolsPass pools =
    NoneFails has_default_account pools
    × NoneFails legacy_endpoints_enabled pools
    × NoneFails no_metadata_server pools
    × NoneFails not_container_optimized pools
    × (not (any (unmanaged (λ m. not m.0)) pools) ≡ true)
    × (not (any (unmanaged (λ m. not m.1)) pools) ≡ true)
    × NoneFails no_integrity_monitoring pools
    × NoneFails no_secure_boot pools
    × NoneFails no_sandbox pools

nodes :
    (o : Option NodeConfig)
    → IsShielded o
    → (elim o as (λ _. Bool) [ none ↦ false | some config ↦ fails_none config ] ≡ true)
      ↔ HasHardenedNodes o
nodes none given = ground arith
nodes (some config) given = fails_none-IsHardenedNode config given

pub PoolsPass-IsHardenedPool :
    (pools : List NodePool)
    → any no_config pools ≡ false
    → All HasShielding pools
    → PoolsPass pools ↔ All IsHardenedPool pools
PoolsPass-IsHardenedPool [] h given = ground arith
PoolsPass-IsHardenedPool (p ∷ ps) h given =
    let ih = PoolsPass-IsHardenedPool ps (ground (arith, h)) given.1 in
    let one = nodes p.config given.0 in ground (arith, h, ih, one)
