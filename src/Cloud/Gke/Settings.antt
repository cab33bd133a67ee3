-- ===== src/Cloud/Gke/Settings.antt =====
-- cloudscan/gke/checks.go: the checks of the settings of a cluster, up to those of its network.
use kvisor.Base.{
  String, [], Option, none, some, Bool, true, false, not, ◌&&◌, ◌||◌, eq_str, if◌then◌else◌,
}
use kvisor.Linter.Lint.{has_suffix}
use kvisor.Cloud.{CheckContext, Check, Rule, listed, manual, tested}
use kvisor.Cloud.Gke.{Cluster}

-- A setting that is there and on.
abbrev pub is_on : Option Bool → Bool
is_on none = false
is_on (some on) = on

-- A value of an enumeration that is there and is the named one.
abbrev pub is_named : String → Option String → Bool
is_named wanted none = false
is_named wanted (some value) = eq_str value wanted

-- The reports of the service on usage: its state, by its name.
abbrev pub check511_image_scanning : String → Bool → Rule
check511_image_scanning state castai_image_scan_enabled =
    tested "5.1.1"
      "5.1.1 - Ensure Image Vulnerability Scanning using GCR Container Analysis or a third party provider"
      false (not (eq_str state "DISABLED" && not castai_image_scan_enabled))

abbrev pub check431_network_policies : Cluster → Rule
check431_network_policies cl =
    tested "4.3.1" "4.3.1 - Ensure that the CNI in use supports Network Policies" false
      (is_on cl.network_policy_enabled)

abbrev pub check512_user_access : Rule
check512_user_access = manual "5.1.2" "5.1.2 - Minimize user access to GCR" false

abbrev pub check513_cluster_access : Rule
check513_cluster_access =
    manual "5.1.3" "5.1.3 - Minimize cluster access to read-only for GCR" false

abbrev pub check514_approved_registries : Rule
check514_approved_registries =
    manual "5.1.4" "5.1.4 - Minimize Container Registries to only those approved" false

abbrev pub check522_workload_identity : Cluster → Rule
check522_workload_identity cl =
    tested "5.2.2" "5.2.2 - Prefer using dedicated GCP Service Accounts and Workload Identity" false
      (elim cl.workload_pool [
        | none ↦ false
        | some pool ↦ not (eq_str pool "" || not (has_suffix pool "svc.id.goog"))
      ])

abbrev pub check531_encrypted_secrets : Cluster → Rule
check531_encrypted_secrets cl =
    tested "5.3.1" "5.3.1 - Ensure Kubernetes Secrets are encrypted using keys managed in Cloud KMS"
      false (is_named "ENCRYPTED" cl.database_encryption_state)

abbrev pub check555_shielded_nodes : Cluster → Rule
check555_shielded_nodes cl =
    tested "5.5.5" "5.5.5 - Ensure Shielded GKE Nodes are Enabled" false
      (is_on cl.shielded_nodes_enabled)

abbrev pub check561_intranode_visibility : Cluster → Rule
check561_intranode_visibility cl =
    tested "5.6.1" "5.6.1 - Enable VPC Flow Logs and Intranode Visibility" true
      (is_on cl.enable_intra_node_visibility)

abbrev pub check562_vpc_native : Cluster → Rule
check562_vpc_native cl =
    tested "5.6.2" "5.6.2 - Ensure use of VPC-native clusters" true (is_on cl.use_ip_aliases)

abbrev pub check563_authorized_networks : Cluster → Rule
check563_authorized_networks cl =
    tested "5.6.3" "5.6.3 - Ensure Master Authorized Networks is Enabled" false
      (is_on cl.master_authorized_networks_enabled)

abbrev pub check564_private_endpoint : Cluster → Rule
check564_private_endpoint cl =
    tested "5.6.4"
      "5.6.4 - Ensure clusters are created with Private Endpoint Enabled and Public Access Disabled"
      false
      (elim cl.private_cluster_config [
        | none ↦ false
        | some config ↦ config.enable_private_endpoint
      ])

abbrev pub check565_private_nodes : Cluster → Rule
check565_private_nodes cl =
    tested "5.6.5" "5.6.5 - Ensure clusters are created with Private Nodes" false
      (elim cl.private_cluster_config [ none ↦ false | some config ↦ config.enable_private_nodes ])

abbrev pub check566_firewall : Rule
check566_firewall = manual "5.6.6" "5.6.6 - Consider firewalling GKE worker nodes" false

abbrev pub check567_network_policy : Cluster → Rule
check567_network_policy cl =
    tested "5.6.7" "5.6.7 - Ensure Network Policy is Enabled and set as appropriate" false
      (is_on cl.network_policy_enabled)

abbrev pub check568_managed_certificates : Rule
check568_managed_certificates =
    manual "5.6.8" "5.6.8 - Ensure use of Google-managed SSL Certificates" false

abbrev pub channel_context : String → CheckContext
channel_context channel = record { release_channel = channel; node_pools = []; reason = "" }

-- The test on the release channel of check 5.5.4; a cluster in no channel passes it.
unfoldable pub validate_channel : Option String → Check → Option Check
validate_channel none c = some (record c { passed = true })
validate_channel (some channel) c =
    if not (eq_str channel "REGULAR") && not (eq_str channel "STABLE")
    then some (record c { context = some (channel_context channel) })
    else some (record c { passed = true })

abbrev pub check554_release_channels : Cluster → Rule
check554_release_channels cl = record {
  check =
      listed "5.5.4"
        "5.5.4 - When creating New Clusters - Automate GKE version management using Release Channels"
        false;
  validate = some (validate_channel cl.release_channel);
}
