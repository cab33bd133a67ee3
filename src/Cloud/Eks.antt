-- ===== src/Cloud/Eks.antt =====
-- cloudscan/eks/: the checks of an EKS cluster, of which two look at it, and `scan` (scanner.go,
-- checks.go).
pub mod Verdicts
use kvisor.Base.{
  String, List, [], ◌∷◌, Option, none, some, Bool, true, false, not, ◌&&◌, ◌⊎◌, inl, inr, has, any,
  if◌then◌else◌,
}
use kvisor.Cloud.{
  CheckContext, Check, CloudScanCheck, Rule, Made, made, refused, panicked, listed, manual,
  report_of,
}

pub record VpcConfig : Type 0 where
  pub endpoint_private_access : Bool
  pub endpoint_public_access : Bool

-- `eks.DescribeClusterOutput`: the resources of each encryption configuration, and the VPC
-- configuration.
pub record Cluster : Type 0 where
  pub encryption_resources : List (List String)
  pub vpc_config : Option VpcConfig

-- The loop of check 5.3.1, which returns at the first configuration for secrets.
unfoldable pub validate_encryption : List (List String) → Check → Check
validate_encryption [] c = c
validate_encryption (resources ∷ configs) c =
    let rest = validate_encryption configs c in
    if has "secrets" resources then record c { passed = true } else rest

-- The `validate` of check 5.4.2.
unfoldable pub validate_endpoint : Option VpcConfig → Check → Check
validate_endpoint none c = c
validate_endpoint (some config) c =
    if config.endpoint_private_access && not config.endpoint_public_access
    then record c { automated = true; passed = true }
    else record c { automated = true }

abbrev pub check431_network_policies : Rule
check431_network_policies =
    manual "4.3.1" "4.3.1 - Ensure that the CNI in use supports Network Policies" false

abbrev pub check511_image_scanning : Rule
check511_image_scanning =
    manual "5.1.1"
      "5.1.1 - Ensure Image Vulnerability Scanning using Amazon ECR image scanning or a third party provider"
      false

abbrev pub check512_user_access : Rule
check512_user_access = manual "5.1.2" "5.1.2 - Minimize user access to Amazon ECR" false

abbrev pub check513_cluster_access : Rule
check513_cluster_access =
    manual "5.1.3" "5.1.3 - Minimize cluster access to read-only for Amazon ECR" false

abbrev pub check514_approved_registries : Rule
check514_approved_registries =
    manual "5.1.4" "5.1.4 - Minimize Container Registries to only those approved" false

abbrev pub check521_managed_identities : Rule
check521_managed_identities =
    manual "5.2.1" "5.2.1 - Prefer using managed identities for workloads" false

abbrev pub check531_encrypted_secrets : Cluster → Rule
check531_encrypted_secrets cl = record {
  check =
      listed "5.3.1"
        "5.3.1 - Ensure Kubernetes Secrets are encrypted using Customer Master Keys (CMKs) managed in AWS KMS"
        true;
  validate = some (λ c. some (validate_encryption cl.encryption_resources c));
}

abbrev pub check541_restricted_endpoint : Rule
check541_restricted_endpoint =
    manual "5.4.1" "5.4.1 - Restrict Access to the Control Plane Endpoint" false

abbrev pub check542_private_endpoint : Cluster → Rule
check542_private_endpoint cl = record {
  check =
      listed "5.4.2"
        "5.4.2 - Ensure clusters are created with Private Endpoint Enabled and Public Access Disabled"
        false;
  validate = some (λ c. some (validate_endpoint cl.vpc_config c));
}

abbrev pub check543_private_nodes : Rule
check543_private_nodes =
    manual "5.4.3" "5.4.3 - Ensure clusters are created with Private Nodes" false

abbrev pub check544_network_policy : Rule
check544_network_policy =
    manual "5.4.4" "5.4.4 - Ensure Network Policy is Enabled and set as appropriate" false

abbrev pub check545_encrypted_traffic : Rule
check545_encrypted_traffic =
    manual "5.4.5" "5.4.5 - Encrypt traffic to HTTPS load balancers with TLS certificates" false

abbrev pub check551_iam_authenticator : Rule
check551_iam_authenticator =
    manual "5.5.1" "5.5.1 - Manage Kubernetes RBAC users with AWS IAM Authenticator for Kubernetes"
      false

abbrev pub check561_fargate : Rule
check561_fargate = manual "5.6.1" "5.6.1 - Consider Fargate for running untrusted workloads" false

abbrev pub checks_of : Cluster → List Rule
checks_of cl =
    check431_network_policies
    ∷ check511_image_scanning
    ∷ check512_user_access
    ∷ check513_cluster_access
    ∷ check514_approved_registries
    ∷ check521_managed_identities
    ∷ check531_encrypted_secrets cl
    ∷ check541_restricted_endpoint
    ∷ check542_private_endpoint cl
    ∷ check543_private_nodes
    ∷ check544_network_policy
    ∷ check545_encrypted_traffic
    ∷ check551_iam_authenticator
    ∷ check561_fargate
    ∷ []

pub data ScanError : Type 0 where
  describe_cluster marshalling sending : String → ScanError

-- The end of a scan: the report that the client was given, and the error that was returned.
pub data Outcome : Type 0 where
  crashed : Outcome
  failed : ScanError → Outcome
  sent : List CloudScanCheck → Option ScanError → Outcome

abbrev pub sending_error : Option String → Option ScanError
sending_error none = none
sending_error (some err) = some (sending err)

unfoldable pub send_report : Made → Option String → Outcome
send_report panicked err = crashed
send_report (refused e) err = failed (marshalling e)
send_report (made entries) err = sent entries (sending_error err)

-- `scan`, on the answer of `DescribeCluster` and that of the client.
unfoldable pub scan : (CheckContext → String ⊎ String) → String ⊎ Cluster → Option String → Outcome
scan marshal (inl err) send = failed (describe_cluster err)
scan marshal (inr cl) send = send_report (report_of marshal (checks_of cl)) send
