-- ===== src/Cloud/Gke/Scan.antt =====
-- cloudscan/gke/scanner.go: `scan` and `Start`. The answers of the cloud's services and of the client
-- are arguments; an enumeration's value is its name.
use kvisor.Base.{
  String, List, [], ◌∷◌, Option, none, some, Bool, true, false, ◌⊎◌, inl, inr, eq_str,
  if◌then◌else◌,
}
use kvisor.Cloud.{CheckContext, CloudScanCheck, Rule, Made, made, refused, panicked, report_of}
use kvisor.Cloud.Gke.{Cluster}
use kvisor.Cloud.Gke.Pools.{
  check521_default_service_account, check541_legacy_metadata, check542_metadata_server,
  check551_container_optimized_os, check552_auto_repair, check553_auto_upgrade,
  check556_integrity_monitoring, check557_secure_boot, check5104_sandbox,
}
use kvisor.Cloud.Gke.Settings.{
  check431_network_policies, check511_image_scanning, check512_user_access, check513_cluster_access,
  check514_approved_registries, check522_workload_identity, check531_encrypted_secrets,
  check554_release_channels, check555_shielded_nodes, check561_intranode_visibility,
  check562_vpc_native, check563_authorized_networks, check564_private_endpoint,
  check565_private_nodes, check566_firewall, check567_network_policy, check568_managed_certificates,
}
use kvisor.Cloud.Gke.Access.{
  BinaryPolicy, check571_logging_and_monitoring, check572_auditd_logging,
  check581_basic_authentication, check582_client_certificates, check583_google_groups,
  check584_legacy_authorization, check591_managed_disk_keys, check5101_web_ui,
  check5102_alpha_clusters, check5103_pod_security_policy, check5105_binary_authorization,
  check5106_security_command_center,
}

-- An answer is an error or a value; of a service, its state. The last is what the client says of the
-- report: an error, or nothing.
pub record Answers : Type 0 where
  pub cluster : String ⊎ Cluster
  pub container_scan : String ⊎ String
  pub binary_auth : String ⊎ String
  pub policy : String ⊎ BinaryPolicy
  pub send : Option String

pub data ScanError : Type 0 where
  getting_cluster getting_container_scan getting_binary_auth : String → ScanError
  marshalling sending : String → ScanError

-- The end of a scan: the report that the client was given, and the error that was returned.
pub data Outcome : Type 0 where
  crashed : Outcome
  failed : ScanError → Outcome
  sent : List CloudScanCheck → Option ScanError → Outcome

-- The policy is asked for where the service is enabled. An error of it is only logged.
unfoldable pub binary_policy : String → String ⊎ BinaryPolicy → Option BinaryPolicy
binary_policy state answer =
    if eq_str state "ENABLED"
    then elim answer [ inl err ↦ none | inr policy ↦ some policy ]
    else none

unfoldable pub checks_of : Cluster → String → Bool → String → Option BinaryPolicy → List Rule
checks_of cl container_scan img_scan_enabled binary_auth policy =
    check431_network_policies cl
    ∷ check511_image_scanning container_scan img_scan_enabled
    ∷ check512_user_access
    ∷ check513_cluster_access
    ∷ check514_approved_registries
    ∷ check521_default_service_account cl
    ∷ check522_workload_identity cl
    ∷ check531_encrypted_secrets cl
    ∷ check541_legacy_metadata cl
    ∷ check542_metadata_server cl
    ∷ check551_container_optimized_os cl
    ∷ check552_auto_repair cl
    ∷ check553_auto_upgrade cl
    ∷ check554_release_channels cl
    ∷ check555_shielded_nodes cl
    ∷ check556_integrity_monitoring cl
    ∷ check557_secure_boot cl
    ∷ check561_intranode_visibility cl
    ∷ check562_vpc_native cl
    ∷ check563_authorized_networks cl
    ∷ check564_private_endpoint cl
    ∷ check565_private_nodes cl
    ∷ check566_firewall
    ∷ check567_network_policy cl
    ∷ check568_managed_certificates
    ∷ check571_logging_and_monitoring cl
    ∷ check572_auditd_logging
    ∷ check581_basic_authentication cl
    ∷ check582_client_certificates cl
    ∷ check583_google_groups cl
    ∷ check584_legacy_authorization cl
    ∷ check591_managed_disk_keys
    ∷ check5101_web_ui cl
    ∷ check5102_alpha_clusters cl
    ∷ check5103_pod_security_policy
    ∷ check5104_sandbox cl
    ∷ check5105_binary_authorization cl binary_auth policy
    ∷ check5106_security_command_center
    ∷ []

abbrev pub sending_error : Option String → Option ScanError
sending_error none = none
sending_error (some err) = some (sending err)

unfoldable pub send_report : Made → Option String → Outcome
send_report panicked err = crashed
send_report (refused e) err = failed (marshalling e)
send_report (made entries) err = sent entries (sending_error err)

module _ (marshal : CheckContext → String ⊎ String) (img_scan_enabled : Bool) where
  unfoldable pub scan : Answers → Outcome
  scan a = elim a.cluster [
    | inl err ↦ failed (getting_cluster err)
    | inr cl ↦ elim a.container_scan [
      | inl err ↦ failed (getting_container_scan err)
      | inr container_scan ↦ elim a.binary_auth [
        | inl err ↦ failed (getting_binary_auth err)
        | inr binary_auth ↦
            send_report
              (report_of marshal (
                checks_of cl container_scan img_scan_enabled binary_auth
                  (binary_policy binary_auth a.policy)))
              a.send
      ]
    ]
  ]

  -- `Start`, on the answers to each scan, until the context is done: the reports that the client
  -- was given, and whether a scan crashed. The error of a scan is only logged.
  unfoldable pub start : List Answers → List (List CloudScanCheck) × Bool
  start [] = ([], false)
  start (a ∷ later) =
      let rest = start later in
      elim (scan a) [
        | crashed ↦ ([], true)
        | failed err ↦ rest
        | sent report err ↦ (report ∷ rest.0, rest.1)
      ]
