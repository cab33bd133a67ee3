-- ===== src/Cloud/Gke/Pools.antt =====
-- cloudscan/gke/checks.go: the checks that look at every node pool.
use kvisor.Base.{
  String, lookup, List, [], ◌∷◌, Option, none, some, Bool, true, false, not, ◌&&◌, eq_str,
  if◌then◌else◌, ◌>>=◌,
}
use kvisor.Cloud.{CheckContext, Check, Rule, listed}
use kvisor.Cloud.Gke.{NodeConfig, NodePool, Cluster}

-- A test of a pool that reads `pool.Config`, which is a panic if that is nil.
abbrev pub on_config : (NodeConfig → Bool) → NodePool → Option Bool
on_config test pool = elim pool.config [ none ↦ none | some config ↦ some (test config) ]

-- A test that reads `pool.Management`, with the pools that have none failing it.
abbrev pub on_management : (Bool × Bool → Bool) → NodePool → Option Bool
on_management test pool = elim pool.management [ none ↦ some true | some m ↦ some (test m) ]

-- The names of the pools that fail, given the test that they fail by.
unfoldable pub failed_pools : (NodePool → Option Bool) → List NodePool → Option (List String)
unfolding ◌>>=◌
failed_pools fails [] = some []
failed_pools fails (pool ∷ pools) = do
  failed ← fails pool
  rest ← failed_pools fails pools
  some (if failed then pool.name ∷ rest else rest)

abbrev pub pools_context : List String → CheckContext
pools_context names = record { release_channel = ""; node_pools = names; reason = "" }

abbrev pub judge_pools : Check → List String → Check
judge_pools c [] = record c { passed = true }
judge_pools c (name ∷ names) = record c { context = some (pools_context (name ∷ names)) }

unfoldable pub validate_pools : (NodePool → Option Bool) → List NodePool → Check → Option Check
unfolding failed_pools
validate_pools fails pools c = elim (failed_pools fails pools) [
  | none ↦ none
  | some names ↦ some (judge_pools c names)
]

abbrev pub pool_rule : String → String → Bool → (NodePool → Option Bool) → Cluster → Rule
pool_rule id description automated fails cl = record {
  check = listed id description automated;
  validate = some (validate_pools fails cl.node_pools);
}

abbrev pub has_default_account : NodeConfig → Bool
has_default_account config = eq_str config.service_account "default"

abbrev pub legacy_endpoints_enabled : NodeConfig → Bool
legacy_endpoints_enabled config = elim (lookup "disable-legacy-endpoints" config.metadata) [
  | none ↦ true
  | some val ↦ not (eq_str val "true")
]

abbrev pub no_metadata_server : NodeConfig → Bool
no_metadata_server config = elim config.workload_metadata_mode [
  | none ↦ true
  | some mode ↦ not (eq_str mode "GKE_METADATA")
]

abbrev pub not_container_optimized : NodeConfig → Bool
not_container_optimized config =
    not (eq_str config.image_type "COS") && not (eq_str config.image_type "COS_CONTAINERD")

-- A shielded instance has integrity monitoring and secure boot.
abbrev pub no_integrity_monitoring : NodeConfig → Bool
no_integrity_monitoring config = elim config.shielded_instance_config [
  | none ↦ false
  | some (integrity_monitoring, secure_boot) ↦ not integrity_monitoring
]

abbrev pub no_secure_boot : NodeConfig → Bool
no_secure_boot config = elim config.shielded_instance_config [
  | none ↦ false
  | some (integrity_monitoring, secure_boot) ↦ not secure_boot
]

abbrev pub no_sandbox : NodeConfig → Bool
no_sandbox config = elim config.sandbox_config [ none ↦ true | some _ ↦ false ]

abbrev pub check521_default_service_account : Cluster → Rule
check521_default_service_account =
    pool_rule "5.2.1"
      "5.2.1 - Ensure GKE clusters are not running using the Compute Engine default service account"
      true (on_config has_default_account)

abbrev pub check541_legacy_metadata : Cluster → Rule
check541_legacy_metadata =
    pool_rule "5.4.1" "5.4.1 - Ensure legacy Compute Engine instance metadata APIs are Disabled"
      true (on_config legacy_endpoints_enabled)

abbrev pub check542_metadata_server : Cluster → Rule
check542_metadata_server =
    pool_rule "5.4.2" "5.4.2 - Ensure the GKE Metadata Server is Enabled" true
      (on_config no_metadata_server)

abbrev pub check551_container_optimized_os : Cluster → Rule
check551_container_optimized_os =
    pool_rule "5.5.1" "5.5.1 - Ensure Container-Optimized OS (COS) is used for GKE node images" true
      (on_config not_container_optimized)

abbrev pub check552_auto_repair : Cluster → Rule
check552_auto_repair =
    pool_rule "5.5.2" "5.5.2 - Ensure Node Auto-Repair is enabled for GKE nodes" true
      (on_management (λ m. not m.0))

abbrev pub check553_auto_upgrade : Cluster → Rule
check553_auto_upgrade =
    pool_rule "5.5.3" "5.5.3 - Ensure Node Auto-Upgrade is enabled for GKE nodes" true
      (on_management (λ m. not m.1))

abbrev pub check556_integrity_monitoring : Cluster → Rule
check556_integrity_monitoring =
    pool_rule "5.5.6" "5.5.6 - Ensure Integrity Monitoring for Shielded GKE Nodes is Enabled" true
      (on_config no_integrity_monitoring)

abbrev pub check557_secure_boot : Cluster → Rule
check557_secure_boot =
    pool_rule "5.5.7" "5.5.7 - Ensure Secure Boot for Shielded GKE Nodes is Enabled" true
      (on_config no_secure_boot)

abbrev pub check5104_sandbox : Cluster → Rule
check5104_sandbox =
    pool_rule "5.10.4" "5.10.4 - Consider GKE Sandbox for running untrusted workloads" false
      (on_config no_sandbox)
