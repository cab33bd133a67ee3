-- ===== src/Cloud/Gke/Crash.antt =====
-- When a GKE scan crashes.
use kvisor.Base.{
  ◌&◌, String, List, [], ◌∷◌, Option, none, some, Bool, true, false, not, All, any, is_some, ◌≡◌,
  ◌↔◌, ◌⊎◌, inl, inr, refl, sym, ◌∙◌, arith, Bool-cases,
}
use kvisor.Cloud.{
  CloudScanCheck, CheckContext, Check, Made, made, refused, panicked, report_of, run_check, listed,
  manual, tested,
}
use kvisor.Cloud.Reports.{
  Runs, report_of-made, report_of-never_panics, report_of-skip, report_of-stops,
}
use kvisor.Cloud.Gke.{Cluster, NodePool, NodeConfig}
use kvisor.Cloud.Gke.Pools.{
  on_config, on_management, failed_pools, validate_pools, pool_rule, has_default_account,
  legacy_endpoints_enabled, no_metadata_server, not_container_optimized, no_integrity_monitoring,
  no_secure_boot, no_sandbox,
}
use kvisor.Cloud.Gke.Settings.{validate_channel}
use kvisor.Cloud.Gke.Access.{BinaryPolicy, validate_binary_authorization}
use kvisor.Cloud.Gke.Failing.{
  pool_rule-verdict, no_config, on_given, on_config-given, unmanaged, on_management-given,
}
use kvisor.Cloud.Gke.Scan.{
  Answers, crashed, sent, failed, ScanError, scan, checks_of, binary_policy, send_report,
  marshalling, sending_error,
}
use kvisor.Cloud.Gke.Verdicts.{Answered, scan_cases}

some_of : (o : Option Check) → is_some o ≡ true → (c : Check) × (o ≡ some c)
some_of none e = let clash : false ≡ true = e in cc
some_of (some c) e = (c, refl)

manual-Runs : (id description : String) (automated : Bool) → Runs (manual id description automated)
unfolding run_check
manual-Runs id description automated = (listed id description automated, refl)

tested-Runs :
    (id description : String) (automated ok : Bool) → Runs (tested id description automated ok)
unfolding run_check
tested-Runs id description automated ok =
    (record (listed id description automated) { passed = ok }, refl)

pool_rule-Runs :
    (id description : String) (automated : Bool) (test : NodeConfig → Bool) (cl : Cluster)
    → any no_config cl.node_pools ≡ false
    → Runs (pool_rule id description automated (on_config test) cl)
pool_rule-Runs id description automated test cl h =
    let (c, e, passed, context) =
      pool_rule-verdict id description automated (on_config test) cl (on_given test)
        (on_config-given test cl.node_pools h) in
    (c, e)

managed-Runs :
    (id description : String) (automated : Bool) (test : Bool × Bool → Bool) (cl : Cluster)
    → Runs (pool_rule id description automated (on_management test) cl)
managed-Runs id description automated test cl =
    let (c, e, passed, context) =
      pool_rule-verdict id description automated (on_management test) cl (unmanaged test)
        (on_management-given test cl.node_pools) in
    (c, e)

pub channel-Runs :
    (channel : Option String) (id description : String) (automated : Bool)
    → Runs (record {
      check = listed id description automated;
      validate = some (validate_channel channel);
    })
unfolding run_check validate_channel
channel-Runs none id description automated = (_, refl)
channel-Runs (some channel) id description automated = some_of _ (ground arith)

pub binary-Runs :
    (state : String) (mode : Option String) (policy : Option BinaryPolicy) (id description : String)
    (automated : Bool)
    → Runs (record {
      check = listed id description automated;
      validate = some (validate_binary_authorization state mode policy);
    })
unfolding run_check validate_binary_authorization
binary-Runs state mode policy id description automated = some_of _ (ground arith)

checks_of-Runs :
    (cl : Cluster) (container_scan : String) (enabled : Bool) (binary_auth : String)
    (policy : Option BinaryPolicy)
    → any no_config cl.node_pools ≡ false
    → All Runs (checks_of cl container_scan enabled binary_auth policy)
unfolding checks_of
checks_of-Runs cl container_scan enabled binary_auth policy h =
    tested-Runs _ _ _ _
    & tested-Runs _ _ _ _
    & manual-Runs _ _ _
    & manual-Runs _ _ _
    & manual-Runs _ _ _
    & pool_rule-Runs _ _ _ has_default_account cl h
    & tested-Runs _ _ _ _
    & tested-Runs _ _ _ _
    & pool_rule-Runs _ _ _ legacy_endpoints_enabled cl h
    & pool_rule-Runs _ _ _ no_metadata_server cl h
    & pool_rule-Runs _ _ _ not_container_optimized cl h
    & managed-Runs _ _ _ (λ m. not m.0) cl
    & managed-Runs _ _ _ (λ m. not m.1) cl
    & channel-Runs cl.release_channel _ _ _
    & tested-Runs _ _ _ _
    & pool_rule-Runs _ _ _ no_integrity_monitoring cl h
    & pool_rule-Runs _ _ _ no_secure_boot cl h
    & tested-Runs _ _ _ _
    & tested-Runs _ _ _ _
    & tested-Runs _ _ _ _
    & tested-Runs _ _ _ _
    & tested-Runs _ _ _ _
    & manual-Runs _ _ _
    & tested-Runs _ _ _ _
    & manual-Runs _ _ _
    & tested-Runs _ _ _ _
    & manual-Runs _ _ _
    & tested-Runs _ _ _ _
    & tested-Runs _ _ _ _
    & tested-Runs _ _ _ _
    & tested-Runs _ _ _ _
    & manual-Runs _ _ _
    & tested-Runs _ _ _ _
    & tested-Runs _ _ _ _
    & manual-Runs _ _ _
    & pool_rule-Runs _ _ _ no_sandbox cl h
    & binary-Runs binary_auth cl.binary_authorization_mode policy _ _ _
    & manual-Runs _ _ _
    & tt

no_config-fails :
    (test : NodeConfig → Bool) (pools : List NodePool)
    → any no_config pools ≡ true
    → failed_pools (on_config test) pools ≡ none
unfolding failed_pools
no_config-fails test [] e = cc
no_config-fails test (p ∷ ps) e = ground (arith, no_config-fails test ps, e)

-- A pool without a configuration makes check 5.2.1 panic, the first that looks at the pools, and no
-- check before it has a context.
module _ (marshal : CheckContext → String ⊎ String) (img_scan_enabled : Bool) where
  checks_of-panics :
      (cl : Cluster) (container_scan binary_auth : String) (policy : Option BinaryPolicy)
      → any no_config cl.node_pools ≡ true
      → report_of marshal (checks_of cl container_scan img_scan_enabled binary_auth policy)
        ≡ panicked
  unfolding checks_of run_check validate_pools
  checks_of-panics cl container_scan binary_auth policy h = report_of-skip marshal _ _ _ refl refl (
      report_of-skip marshal _ _ _ refl refl (
        report_of-skip marshal _ _ _ refl refl (
          report_of-skip marshal _ _ _ refl refl (
            report_of-skip marshal _ _ _ refl refl (
              report_of-stops marshal _ _
                (ground (arith, no_config-fails has_default_account cl.node_pools h)))))))

  send_report-crashed :
      (m : Made) (send : Option String) → (send_report m send ≡ crashed) → m ≡ panicked
  unfolding send_report
  send_report-crashed panicked send e = refl
  send_report-crashed (refused x) send e = let clash : failed (marshalling x) ≡ crashed = e in cc
  send_report-crashed (made xs) send e =
      let clash : sent xs (sending_error send) ≡ crashed = e in cc

  pub no_config-crashed :
      (a : Answers) (cl : Cluster) (container_scan binary_auth : String)
      → Answered marshal img_scan_enabled a cl container_scan binary_auth
      → any no_config cl.node_pools ≡ true
      → scan marshal img_scan_enabled a ≡ crashed
  unfolding scan send_report
  no_config-crashed a cl container_scan binary_auth answered h =
      let panics =
        checks_of-panics cl container_scan binary_auth (binary_policy binary_auth a.policy) h in
      ground (arith, answered.0, answered.1, answered.2, panics)

  -- A GKE scan crashes exactly if the cluster and the two services answer and the cluster has a node
  -- pool whose configuration is nil.
  pub scan-crashed :
      (a : Answers)
      → (scan marshal img_scan_enabled a ≡ crashed) ↔ (
          (cl : Cluster) × (container_scan : String) × (binary_auth : String) × Answered marshal
            img_scan_enabled a cl container_scan binary_auth
          × (any no_config cl.node_pools ≡ true))
  scan-crashed a = (
    (λ e. by_cases (scan_cases marshal img_scan_enabled a) e),
    λ h. no_config-crashed a h.0 h.1 h.2 h.3 h.4,
  )
    where
      by_cases :
          (((err : ScanError) × (scan marshal img_scan_enabled a ≡ failed err))
            ⊎ ((cl : Cluster) × (container_scan : String) × (binary_auth : String) × Answered
                  marshal img_scan_enabled a cl container_scan binary_auth
                × (scan marshal img_scan_enabled a
                    ≡ send_report
                        (report_of marshal (
                          checks_of cl container_scan img_scan_enabled binary_auth
                            (binary_policy binary_auth a.policy)))
                        a.send)))
          → scan marshal img_scan_enabled a ≡ crashed
          → ((cl : Cluster) × (container_scan : String) × (binary_auth : String) × Answered marshal
                img_scan_enabled a cl container_scan binary_auth
              × (any no_config cl.node_pools ≡ true))
      by_cases (inl (err, f)) e = let clash : failed err ≡ crashed = sym f ∙ e in cc
      by_cases (inr (cl, cs, ba, answered, f)) e = (
        cl,
        cs,
        ba,
        answered,
        elim (Bool-cases (any no_config cl.node_pools)) [
          | inl h ↦ h
          | inr h ↦ absurd (
              report_of-never_panics marshal _ (checks_of-Runs cl cs img_scan_enabled ba _ h)
                (send_report-crashed _ a.send (sym f ∙ e)))
        ],
      )

  -- A scan that does not crash, of contexts that can be marshalled, hands a report to the client.
  pub scan-sends :
      (a : Answers) (cl : Cluster) (container_scan binary_auth : String)
      → ((context : CheckContext) → (bytes : String) × (marshal context ≡ inr bytes))
      → Answered marshal img_scan_enabled a cl container_scan binary_auth
      → any no_config cl.node_pools ≡ false
      → (entries : List CloudScanCheck) × (scan marshal img_scan_enabled a
          ≡ sent entries (sending_error a.send))
  unfolding scan send_report
  scan-sends a cl container_scan binary_auth hm answered h =
      let runs =
        checks_of-Runs cl container_scan img_scan_enabled binary_auth
          (binary_policy binary_auth a.policy) h in
      let (entries, e) = report_of-made marshal _ hm runs in
      (entries, ground (arith, answered.0, answered.1, answered.2, e))
