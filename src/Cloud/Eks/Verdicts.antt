-- ===== src/Cloud/Eks/Verdicts.antt =====
-- What an EKS scan reports.
use kvisor.Base.{
  String, List, [], ◌∷◌, Option, none, some, Bool, true, false, not, ◌&&◌, any, has, ◌≡◌, ◌⊎◌, inr,
  refl, arith,
}
use kvisor.Cloud.{CheckContext, Check, CloudScanCheck, report_of, run_check, context_bytes}
use kvisor.Cloud.Eks.{
  Cluster, VpcConfig, sent, scan, check531_encrypted_secrets, check542_private_endpoint,
  validate_encryption, validate_endpoint, send_report, sending_error,
}

abbrev entry : String → Bool → Bool → CloudScanCheck
entry id automated passed = record {
  id = id;
  automated = automated;
  passed = passed;
  context = none;
}

-- A configuration encrypts secrets.
abbrev encrypts_secrets : List (List String) → Bool
encrypts_secrets configs = any (λ resources. has "secrets" resources) configs

abbrev is_private : Option VpcConfig → Bool
is_private none = false
is_private (some config) = config.endpoint_private_access && not config.endpoint_public_access

abbrev is_given : Option VpcConfig → Bool
is_given none = false
is_given (some config) = true

-- The report on a cluster.
abbrev pub eks_report : Cluster → List CloudScanCheck
eks_report cl =
    entry "4.3.1" false false
    ∷ entry "5.1.1" false false
    ∷ entry "5.1.2" false false
    ∷ entry "5.1.3" false false
    ∷ entry "5.1.4" false false
    ∷ entry "5.2.1" false false
    ∷ entry "5.3.1" true (encrypts_secrets cl.encryption_resources)
    ∷ entry "5.4.1" false false
    ∷ entry "5.4.2" (is_given cl.vpc_config) (is_private cl.vpc_config)
    ∷ entry "5.4.3" false false
    ∷ entry "5.4.4" false false
    ∷ entry "5.4.5" false false
    ∷ entry "5.5.1" false false
    ∷ entry "5.6.1" false false
    ∷ []

validate_encryption-any :
    (configs : List (List String)) (c : Check)
    → c.passed ≡ false
    → validate_encryption configs c ≡ record c { passed = encrypts_secrets configs }
unfolding validate_encryption
validate_encryption-any [] c h = ground (arith, h)
validate_encryption-any (resources ∷ configs) c h =
    ground (arith, validate_encryption-any configs c h)

validate_endpoint-private :
    (o : Option VpcConfig) (c : Check)
    → c.passed ≡ false
    → c.automated ≡ false
    → validate_endpoint o c ≡ record c { automated = is_given o; passed = is_private o }
unfolding validate_endpoint
validate_endpoint-private none c h k = ground (arith, h, k)
validate_endpoint-private (some config) c h k = ground (arith, h, k)

-- An EKS scan that describes the cluster never fails before the report is sent: it sends the
-- fourteen checks of the benchmark in their order, without contexts. Check 5.3.1 passes exactly if
-- an encryption configuration names secrets; check 5.4.2 is automated exactly if there is a VPC
-- configuration, and passes exactly if that opens the endpoint for private access only; no other
-- check is automated or passes. An error of the client is returned.
pub scan-eks_report :
    (marshal : CheckContext → String ⊎ String) (cl : Cluster) (send : Option String)
    → scan marshal (inr cl) send ≡ sent (eks_report cl) (sending_error send)
unfolding scan report_of run_check context_bytes send_report
scan-eks_report marshal cl send =
    let secrets =
      validate_encryption-any cl.encryption_resources (check531_encrypted_secrets cl).check refl in
    let endpoint =
      validate_endpoint-private cl.vpc_config (check542_private_endpoint cl).check refl refl in
    simp (secrets, endpoint)
