-- ===== src/Cloud/Gke/Hardened.antt =====
-- The cluster whose GKE report has no failure, described by its settings.
pub mod Tests
use kvisor.Base.{
  String, lookup, List, [], ◌∷◌, Option, none, some, Bool, true, false, not, ◌&&◌, ◌||◌, All, any,
  eq_str, eq_str-test, ◌≡◌, ◌≢◌, ◌↔◌, ◌⊎◌, inr, arith,
}
use kvisor.Linter.Lint.{has_suffix}
use kvisor.Cloud.Gke.{NodeConfig, NodePool, Cluster, AuthenticatorGroupsConfig}
use kvisor.Cloud.Gke.Pools.{
  has_default_account, legacy_endpoints_enabled, no_metadata_server, not_container_optimized,
  no_integrity_monitoring, no_secure_boot, no_sandbox,
}
use kvisor.Cloud.Gke.Settings.{is_on, is_named}
use kvisor.Cloud.Gke.Access.{BinaryPolicy, allows_all, has_prefix}
use kvisor.Cloud.Gke.Failing.{on_given, unmanaged, no_config}
use kvisor.Cloud.Gke.Scan.{binary_policy}

-- A node pool whose nodes are set up as the benchmark asks.
abbrev pub IsHardenedNode : NodeConfig → Type 0
IsHardenedNode config =
    (config.service_account ≢ "default")
    × (lookup "disable-legacy-endpoints" config.metadata ≡ some "true")
    × (config.workload_metadata_mode ≡ some "GKE_METADATA")
    × ((config.image_type ≡ "COS") ⊎ (config.image_type ≡ "COS_CONTAINERD"))
    × (config.shielded_instance_config ≡ some (true, true))
    × (config.sandbox_config ≢ none)

-- A pool with such nodes, repaired and upgraded automatically.
abbrev pub HasHardenedNodes : Option NodeConfig → Type 0
HasHardenedNodes none = ⊥
HasHardenedNodes (some config) = IsHardenedNode config

abbrev pub IsHardenedPool : NodePool → Type 0
IsHardenedPool pool = HasHardenedNodes pool.config × (pool.management ≡ some (true, true))

-- The release channel and the shielding of the nodes are given. The checks 5.5.4, 5.5.6 and 5.5.7 do
-- not find fault with a cluster in which they are missing, although it is not hardened.
abbrev pub IsShielded : Option NodeConfig → Type 0
IsShielded none = Unit
IsShielded (some config) = config.shielded_instance_config ≢ none

abbrev pub HasShielding : NodePool → Type 0
HasShielding pool = IsShielded pool.config

abbrev pub IsComplete : Cluster → Type 0
IsComplete cl = (cl.release_channel ≢ none) × All HasShielding cl.node_pools

-- The settings of the cluster and its network.
abbrev pub IsHardenedNetwork : Cluster → Type 0
IsHardenedNetwork cl =
    (cl.network_policy_enabled ≡ some true)
    × (cl.shielded_nodes_enabled ≡ some true)
    × (cl.enable_intra_node_visibility ≡ some true)
    × (cl.use_ip_aliases ≡ some true)
    × (cl.master_authorized_networks_enabled ≡ some true)
    × (cl.private_cluster_config
        ≡ some (record { enable_private_endpoint = true; enable_private_nodes = true }))
    × (cl.database_encryption_state ≡ some "ENCRYPTED")
    × ((cl.release_channel ≡ some "REGULAR") ⊎ (cl.release_channel ≡ some "STABLE"))

-- The pool of identities for workloads is that of the project.
abbrev pub HasIdentities : Option String → Type 0
HasIdentities none = ⊥
HasIdentities (some pool) = (pool ≢ "") × (has_suffix pool "svc.id.goog" ≡ true)

abbrev pub HasGroups : Option AuthenticatorGroupsConfig → Type 0
HasGroups none = ⊥
HasGroups (some config) =
    (config.enabled ≡ true) × (has_prefix config.security_group "gke-security-groups" ≡ true)

-- The access to it: logs are kept, a workload has an identity of its own, nobody logs in with a
-- password or a certificate, groups are those of Google, and the old ways in are closed.
abbrev pub IsHardenedAccess : Cluster → Type 0
IsHardenedAccess cl =
    (cl.logging_service ≢ "none")
    × (cl.monitoring_service ≢ "none")
    × HasIdentities cl.workload_pool
    × ((cl.master_auth ≡ none)
        ⊎ (cl.master_auth ≡ some (record { username = ""; password = ""; client_key = "" })))
    × HasGroups cl.authenticator_groups_config
    × (cl.legacy_abac_enabled ≢ some true)
    × (cl.kubernetes_dashboard_disabled ≢ some (some false))
    × (cl.enable_kubernetes_alpha ≡ false)

-- Images are scanned, and admitted by a policy.
abbrev pub HasHardenedImages : Cluster → Bool → String → String → String ⊎ BinaryPolicy → Type 0
HasHardenedImages cl img_scan_enabled container_scan binary_auth answer =
    ((container_scan ≢ "DISABLED") ⊎ (img_scan_enabled ≡ true))
    × (cl.binary_authorization_mode ≡ some "PROJECT_SINGLETON_POLICY_ENFORCE")
    × (binary_auth ≡ "ENABLED")
    × ((policy : BinaryPolicy) × (answer ≡ inr policy)
        × (policy.default_evaluation_mode ≢ some "ALWAYS_ALLOW"))
