-- ===== src/Cloud/Gke.antt =====
-- cloudscan/gke/: the configuration of a GKE cluster, as far as the checks read it. A pointer that
-- may be nil is an `Option`; of a message that is read in one field only that field is kept; a value
-- of an enumeration is the name that its `String` gives.
pub mod Pools
pub mod Failing
pub mod Settings
pub mod Access
pub mod Scan
pub mod Name
pub mod Verdicts
pub mod Crash
pub mod Hardened
pub mod Passed
use kvisor.Base.{String, GoMap, List, Option, Bool}

pub record NodeConfig : Type 0 where
  pub service_account : String
  pub metadata : GoMap String
  pub workload_metadata_mode : Option String
  pub image_type : String
  pub shielded_instance_config : Option (Bool × Bool)
  pub sandbox_config : Option String

-- `Management` has auto-repair and auto-upgrade.
pub record NodePool : Type 0 where
  pub name : String
  pub config : Option NodeConfig
  pub management : Option (Bool × Bool)

pub record PrivateClusterConfig : Type 0 where
  pub enable_private_endpoint : Bool
  pub enable_private_nodes : Bool

pub record MasterAuth : Type 0 where
  pub username : String
  pub password : String
  pub client_key : String

pub record AuthenticatorGroupsConfig : Type 0 where
  pub enabled : Bool
  pub security_group : String

pub record Cluster : Type 0 where
  pub node_pools : List NodePool
  pub network_policy_enabled : Option Bool
  pub workload_pool : Option String
  pub database_encryption_state : Option String
  pub release_channel : Option String
  pub shielded_nodes_enabled : Option Bool
  pub enable_intra_node_visibility : Option Bool
  pub use_ip_aliases : Option Bool
  pub master_authorized_networks_enabled : Option Bool
  pub private_cluster_config : Option PrivateClusterConfig
  pub logging_service : String
  pub monitoring_service : String
  pub master_auth : Option MasterAuth
  pub authenticator_groups_config : Option AuthenticatorGroupsConfig
  pub legacy_abac_enabled : Option Bool
  pub kubernetes_dashboard_disabled : Option (Option Bool)
  pub enable_kubernetes_alpha : Bool
  pub binary_authorization_mode : Option String
