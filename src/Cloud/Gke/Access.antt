-- ===== src/Cloud/Gke/Access.antt =====
-- cloudscan/gke/checks.go: the checks of logging, of access to a cluster and of its components.
use kvisor.Base.{
  String, [], Option, none, some, Bool, true, false, not, ◌||◌, eq_str, if◌then◌else◌,
}
use kvisor.ImageScan.Runtime.{codes, starts_with}
use kvisor.Cloud.{CheckContext, Check, Rule, listed, manual, tested}
use kvisor.Cloud.Gke.{Cluster}
use kvisor.Cloud.Gke.Settings.{is_on, is_named}

-- `strings.HasPrefix`.
abbrev pub has_prefix : String → String → Bool
has_prefix text prefix = starts_with (codes prefix) (codes text)

abbrev pub check571_logging_and_monitoring : Cluster → Rule
check571_logging_and_monitoring cl =
    tested "5.7.1" "5.7.1 - Ensure Stackdriver Kubernetes Logging and Monitoring is Enabled" true
      (not (eq_str cl.logging_service "none" || eq_str cl.monitoring_service "none"))

abbrev pub check572_auditd_logging : Rule
check572_auditd_logging = manual "5.7.2" "5.7.2 - Enable Linux auditd logging" false

abbrev pub check581_basic_authentication : Cluster → Rule
check581_basic_authentication cl =
    tested "5.8.1" "5.8.1 - Ensure Basic Authentication using static passwords is Disabled" true
      (elim cl.master_auth [
        | none ↦ true
        | some auth ↦ not (not (eq_str auth.username "") || not (eq_str auth.password ""))
      ])

abbrev pub check582_client_certificates : Cluster → Rule
check582_client_certificates cl =
    tested "5.8.2" "5.8.2 - Ensure authentication using Client Certificates is Disabled" true
      (elim cl.master_auth [ none ↦ true | some auth ↦ not (not (eq_str auth.client_key "")) ])

abbrev pub check583_google_groups : Cluster → Rule
check583_google_groups cl =
    tested "5.8.3" "5.8.3 - Manage Kubernetes RBAC users with Google Groups for GKE" false
      (elim cl.authenticator_groups_config [
        | none ↦ false
        | some config ↦
            not (not config.enabled || not (has_prefix config.security_group "gke-security-groups"))
      ])

abbrev pub check584_legacy_authorization : Cluster → Rule
check584_legacy_authorization cl =
    tested "5.8.4" "5.8.4 - Ensure Legacy Authorization (ABAC) is Disabled" true
      (not (is_on cl.legacy_abac_enabled))

abbrev pub check591_managed_disk_keys : Rule
check591_managed_disk_keys =
    manual "5.9.1"
      "5.9.1 - Enable Customer-Managed Encryption Keys (CMEK) for GKE Persistent Disks (PD)" false

abbrev pub check5101_web_ui : Cluster → Rule
check5101_web_ui cl =
    tested "5.10.1" "5.10.1 - Ensure Kubernetes Web UI is Disabled" true
      (elim cl.kubernetes_dashboard_disabled [
        | none ↦ true
        | some dashboard ↦ elim dashboard [ none ↦ true | some disabled ↦ not (not disabled) ]
      ])

abbrev pub check5102_alpha_clusters : Cluster → Rule
check5102_alpha_clusters cl =
    tested "5.10.2" "5.10.2 - Ensure that Alpha clusters are not used for production workloads" true
      (not cl.enable_kubernetes_alpha)

abbrev pub check5103_pod_security_policy : Rule
check5103_pod_security_policy =
    manual "5.10.3" "5.10.3 - Ensure Pod Security Policy is Enabled and set as appropriate" false

abbrev pub check5106_security_command_center : Rule
check5106_security_command_center =
    manual "5.10.6" "5.10.6 - Enable Cloud Security Command Center (Cloud SCC)" false

-- `binaryauthorizationpb.Policy`: the evaluation mode of the default rule, if there is one.
pub record BinaryPolicy : Type 0 where
  pub default_evaluation_mode : Option String

abbrev pub reason_context : String → CheckContext
reason_context reason = record { release_channel = ""; node_pools = []; reason = reason }

abbrev pub allows_all : Option BinaryPolicy → Bool
allows_all none = true
allows_all (some policy) = is_named "ALWAYS_ALLOW" policy.default_evaluation_mode

-- Check 5.10.5, on the state of the service, the mode of the cluster and the policy.
unfoldable pub validate_binary_authorization :
    String → Option String → Option BinaryPolicy → Check → Option Check
validate_binary_authorization state mode policy c =
    if eq_str state "DISABLED"
    then some (record c { context = some (reason_context "binary_auth_service_disabled") })
    else if not (is_named "PROJECT_SINGLETON_POLICY_ENFORCE" mode)
    then some
        (record c { context = some (reason_context "cluster_binary_auth_evaluation_mode_not_set") })
    else if allows_all policy
    then some (record c { context = some (reason_context "default_policy_allows_all_images") })
    else some (record c { passed = true })

abbrev pub check5105_binary_authorization : Cluster → String → Option BinaryPolicy → Rule
check5105_binary_authorization cl state policy = record {
  check = listed "5.10.5" "5.10.5 - Ensure use of Binary Authorization" true;
  validate = some (validate_binary_authorization state cl.binary_authorization_mode policy);
}
