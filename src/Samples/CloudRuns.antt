-- ===== src/Samples/CloudRuns.antt =====
-- Clusters of the clouds, and the theorems on their scans applied to them.
use kvisor.Base.{
  String, List, [], ◌∷◌, none, some, true, false, any, All, ◌≡◌, ◌↔◌, ◌⊎◌, inl, inr, refl,
}
use kvisor.Cloud.{CheckContext, CloudScanCheck}
use kvisor.Cloud.Gke.{NodeConfig, NodePool, Cluster}
use kvisor.Cloud.Gke.Failing.{no_config}
use kvisor.Cloud.Gke.Hardened.{
  IsComplete, IsHardenedPool, IsHardenedNetwork, IsHardenedAccess, HasHardenedImages,
}
use kvisor.Cloud.Eks
use kvisor.Cloud.Eks.Verdicts.{eks_report, scan-eks_report}
use kvisor.Cloud.Gke.Scan.{Answers, crashed, sent, scan}
use kvisor.Cloud.Gke.Verdicts.{Answered}
use kvisor.Cloud.Gke.Crash.{scan-crashed, scan-sends}
use kvisor.Cloud.Gke.Passed.{scan-IsHardened}
use kvisor.Cloud.Gke.Passed.Rules.{PassesFor}

abbrev web_config : NodeConfig
web_config = record {
  service_account = "default";
  metadata = ("disable-legacy-endpoints", "true") ∷ [];
  workload_metadata_mode = some "GKE_METADATA";
  image_type = "COS";
  shielded_instance_config = some (true, false);
  sandbox_config = none;
}

abbrev web_pool : NodePool
web_pool = record { name = "pool-1"; config = some web_config; management = some (true, false) }

abbrev web_cluster : Cluster
web_cluster = record {
  node_pools = web_pool ∷ [];
  network_policy_enabled = some true;
  workload_pool = none;
  database_encryption_state = some "DECRYPTED";
  release_channel = some "RAPID";
  shielded_nodes_enabled = none;
  enable_intra_node_visibility = none;
  use_ip_aliases = some true;
  master_authorized_networks_enabled = none;
  private_cluster_config = none;
  logging_service = "none";
  monitoring_service = "monitoring.googleapis.com";
  master_auth = none;
  authenticator_groups_config = none;
  legacy_abac_enabled = some false;
  kubernetes_dashboard_disabled = none;
  enable_kubernetes_alpha = false;
  binary_authorization_mode = none;
}

abbrev web_answers : Answers
web_answers = record {
  cluster = inr web_cluster;
  container_scan = inr "ENABLED";
  binary_auth = inr "DISABLED";
  policy = inl "not asked";
  send = none;
}

abbrev in_bytes : CheckContext → String ⊎ String
in_bytes context = inr "{}"

abbrev web_report :
    (entries : List CloudScanCheck) × (scan in_bytes false web_answers ≡ sent entries none)
web_report =
    scan-sends in_bytes false web_answers web_cluster "ENABLED" "DISABLED" (λ c. ("{}", refl))
      (refl, refl, refl) refl

web-IsComplete : IsComplete web_cluster
web-IsComplete = (λ e. cc, (λ e. cc, tt))

scan-IsHardened_example : All (λ (e : CloudScanCheck). PassesFor e.id e.passed) web_report.0 ↔ (
    All IsHardenedPool (web_pool ∷ [])
    × IsHardenedNetwork web_cluster
    × IsHardenedAccess web_cluster
    × HasHardenedImages web_cluster false "ENABLED" "DISABLED" (inl "not asked"))
scan-IsHardened_example =
    scan-IsHardened in_bytes false web_cluster "ENABLED" "DISABLED" (inl "not asked") none
      web_report.0 none web_report.1 web-IsComplete

scan-crashed_example : (scan in_bytes false web_answers ≡ crashed) ↔ (
    (cl : Cluster) × (container_scan : String) × (binary_auth : String) × Answered in_bytes false
      web_answers cl container_scan binary_auth
    × (any no_config cl.node_pools ≡ true))
scan-crashed_example = scan-crashed in_bytes false web_answers

abbrev open_cluster : Eks.Cluster
open_cluster = record { encryption_resources = ("secrets" ∷ []) ∷ []; vpc_config = none }

scan-eks_report_example :
    Eks.scan in_bytes (inr open_cluster) (some "closed")
    ≡ Eks.sent (eks_report open_cluster) (some (Eks.sending "closed"))
scan-eks_report_example = scan-eks_report in_bytes open_cluster (some "closed")
