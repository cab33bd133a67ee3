-- ===== src/Cloud/Gke/Passed.antt =====
-- The GKE report without a failure: the checks pass exactly on the cluster described in `Hardened`.
pub mod Rules
use kvisor.Cloud.Gke.Passed.Rules.{
  by_hand, PassesFor, RulePasses, manual-judged, tested-passes, tested-judged, pool-passes,
  pool-judged, channel-passes, channel-judged, binary-passes, binary-judged,
}
use text.Mathlib.Text.{◌==◌}
use kvisor.Base.{
  ℕ, All-At, ◌&◌, String, List, [], ◌∷◌, Option, none, some, some_inj, Bool, true, false, not, All,
  any, ◌≡◌, ◌↔◌, ◌⊎◌, inl, inr, refl, ap, sym, ◌∙◌, arith, Bool-cases,
}
use kvisor.Cloud.{CheckContext, Check, CloudScanCheck, Rule, run_check, listed, manual, tested}
use kvisor.Cloud.Reports.{Judged, report_of-Judged}
use kvisor.Cloud.Gke.{Cluster, NodePool}
use kvisor.Cloud.Gke.Pools.{
  on_config, on_management, pool_rule, has_default_account, legacy_endpoints_enabled,
  no_metadata_server, not_container_optimized, no_integrity_monitoring, no_secure_boot, no_sandbox,
}
use kvisor.Cloud.Gke.Settings.{validate_channel}
use kvisor.Cloud.Gke.Access.{BinaryPolicy, validate_binary_authorization}
use kvisor.Cloud.Gke.Failing.{
  pool_rule-verdict, pool_rule-Keeps, no_config, on_given, on_config-given, unmanaged,
  on_management-given,
}
use kvisor.Cloud.Gke.Hardened.{
  IsComplete, IsHardenedNetwork, IsHardenedAccess, HasHardenedImages, IsHardenedPool,
}
use kvisor.Cloud.Gke.Hardened.Tests.{
  channel_ok, binary_ok, NetworkPasses, AccessPasses, ImagesPass, PoolsPass,
  NetworkPasses-IsHardenedNetwork, AccessPasses-IsHardenedAccess, ImagesPass-HasHardenedImages,
  PoolsPass-IsHardenedPool,
}
use kvisor.Cloud.Gke.Scan.{Answers, sent, ScanError, scan, checks_of}
use kvisor.Cloud.Gke.Verdicts.{send_report-sent}
use kvisor.Cloud.Gke.Crash.{channel-Runs, binary-Runs, no_config-crashed}

AllPass : Cluster → Bool → String → String → Option BinaryPolicy → Type 0
AllPass cl img_scan_enabled container_scan binary_auth policy =
    PoolsPass cl.node_pools
    × NetworkPasses cl
    × AccessPasses cl
    × ImagesPass cl img_scan_enabled container_scan binary_auth policy

rules_pass :
    (cl : Cluster) (img_scan_enabled : Bool) (container_scan binary_auth : String)
    (policy : Option BinaryPolicy)
    → any no_config cl.node_pools ≡ false
    → All RulePasses (checks_of cl container_scan img_scan_enabled binary_auth policy)
    → AllPass cl img_scan_enabled container_scan binary_auth policy
unfolding checks_of AllPass
rules_pass cl img_scan_enabled container_scan binary_auth policy h all =
    let rule = λ (n : ℕ).
      All-At RulePasses n (checks_of cl container_scan img_scan_enabled binary_auth policy) all in
    (
      (
        pool-passes _ _ _ (on_config has_default_account) (on_given has_default_account) cl
            (on_config-given has_default_account cl.node_pools h) refl (rule 5),
        pool-passes _ _ _ (on_config legacy_endpoints_enabled) (on_given legacy_endpoints_enabled)
            cl (on_config-given legacy_endpoints_enabled cl.node_pools h) refl (rule 8),
        pool-passes _ _ _ (on_config no_metadata_server) (on_given no_metadata_server) cl
            (on_config-given no_metadata_server cl.node_pools h) refl (rule 9),
        pool-passes _ _ _ (on_config not_container_optimized) (on_given not_container_optimized) cl
            (on_config-given not_container_optimized cl.node_pools h) refl (rule 10),
        pool-passes _ _ _ (on_management (λ m. not m.0)) (unmanaged (λ m. not m.0)) cl
            (on_management-given _ cl.node_pools) refl (rule 11),
        pool-passes _ _ _ (on_management (λ m. not m.1)) (unmanaged (λ m. not m.1)) cl
            (on_management-given _ cl.node_pools) refl (rule 12),
        pool-passes _ _ _ (on_config no_integrity_monitoring) (on_given no_integrity_monitoring) cl
            (on_config-given no_integrity_monitoring cl.node_pools h) refl (rule 15),
        pool-passes _ _ _ (on_config no_secure_boot) (on_given no_secure_boot) cl
            (on_config-given no_secure_boot cl.node_pools h) refl (rule 16),
        pool-passes _ _ _ (on_config no_sandbox) (on_given no_sandbox) cl
            (on_config-given no_sandbox cl.node_pools h) refl (rule 35),
      ),
      (
        tested-passes _ _ _ _ refl (rule 0),
        tested-passes _ _ _ _ refl (rule 7),
        channel-passes _ _ _ cl.release_channel refl (rule 13),
        tested-passes _ _ _ _ refl (rule 14),
        tested-passes _ _ _ _ refl (rule 17),
        tested-passes _ _ _ _ refl (rule 18),
        tested-passes _ _ _ _ refl (rule 19),
        tested-passes _ _ _ _ refl (rule 20),
        tested-passes _ _ _ _ refl (rule 21),
        tested-passes _ _ _ _ refl (rule 23),
      ),
      (
        tested-passes _ _ _ _ refl (rule 6),
        tested-passes _ _ _ _ refl (rule 25),
        tested-passes _ _ _ _ refl (rule 27),
        tested-passes _ _ _ _ refl (rule 28),
        tested-passes _ _ _ _ refl (rule 29),
        tested-passes _ _ _ _ refl (rule 30),
        tested-passes _ _ _ _ refl (rule 32),
        tested-passes _ _ _ _ refl (rule 33),
      ),
      (
        tested-passes _ _ _ _ refl (rule 1),
        binary-passes _ _ _ binary_auth cl.binary_authorization_mode policy refl (rule 36),
      ),
    )

pass_rules :
    (cl : Cluster) (img_scan_enabled : Bool) (container_scan binary_auth : String)
    (policy : Option BinaryPolicy)
    → any no_config cl.node_pools ≡ false
    → AllPass cl img_scan_enabled container_scan binary_auth policy
    → All RulePasses (checks_of cl container_scan img_scan_enabled binary_auth policy)
unfolding checks_of AllPass
pass_rules cl img_scan_enabled container_scan binary_auth policy h (p, n, c, i) =
    tested-judged _ _ _ _ n.0
    & tested-judged _ _ _ _ i.0
    & manual-judged _ _ _ refl
    & manual-judged _ _ _ refl
    & manual-judged _ _ _ refl
    & pool-judged _ _ _ (on_config has_default_account) (on_given has_default_account) cl
        (on_config-given has_default_account cl.node_pools h) p.0
    & tested-judged _ _ _ _ c.0
    & tested-judged _ _ _ _ n.1
    & pool-judged _ _ _ (on_config legacy_endpoints_enabled) (on_given legacy_endpoints_enabled) cl
        (on_config-given legacy_endpoints_enabled cl.node_pools h) p.1
    & pool-judged _ _ _ (on_config no_metadata_server) (on_given no_metadata_server) cl
        (on_config-given no_metadata_server cl.node_pools h) p.2
    & pool-judged _ _ _ (on_config not_container_optimized) (on_given not_container_optimized) cl
        (on_config-given not_container_optimized cl.node_pools h) p.3
    & pool-judged _ _ _ (on_management (λ m. not m.0)) (unmanaged (λ m. not m.0)) cl
        (on_management-given _ cl.node_pools) p.4
    & pool-judged _ _ _ (on_management (λ m. not m.1)) (unmanaged (λ m. not m.1)) cl
        (on_management-given _ cl.node_pools) p.5
    & channel-judged _ _ _ cl.release_channel n.2
    & tested-judged _ _ _ _ n.3
    & pool-judged _ _ _ (on_config no_integrity_monitoring) (on_given no_integrity_monitoring) cl
        (on_config-given no_integrity_monitoring cl.node_pools h) p.6
    & pool-judged _ _ _ (on_config no_secure_boot) (on_given no_secure_boot) cl
        (on_config-given no_secure_boot cl.node_pools h) p.7
    & tested-judged _ _ _ _ n.4
    & tested-judged _ _ _ _ n.5
    & tested-judged _ _ _ _ n.6
    & tested-judged _ _ _ _ n.7
    & tested-judged _ _ _ _ n.8
    & manual-judged _ _ _ refl
    & tested-judged _ _ _ _ n.9
    & manual-judged _ _ _ refl
    & tested-judged _ _ _ _ c.1
    & manual-judged _ _ _ refl
    & tested-judged _ _ _ _ c.2
    & tested-judged _ _ _ _ c.3
    & tested-judged _ _ _ _ c.4
    & tested-judged _ _ _ _ c.5
    & manual-judged _ _ _ refl
    & tested-judged _ _ _ _ c.6
    & tested-judged _ _ _ _ c.7
    & manual-judged _ _ _ refl
    & pool-judged _ _ _ (on_config no_sandbox) (on_given no_sandbox) cl
        (on_config-given no_sandbox cl.node_pools h) p.8
    & binary-judged _ _ _ binary_auth cl.binary_authorization_mode policy i.1
    & manual-judged _ _ _ refl
    & tt

module _ (marshal : CheckContext → String ⊎ String) (img_scan_enabled : Bool) where
  -- For a cluster whose release channel and, in each pool, shielding of the nodes are given, the report
  -- that a GKE scan sends has no failure, of a check that is not left to a person, exactly if the
  -- cluster is hardened: its node pools, its network, the access to it and its images are set up as
  -- `Hardened` describes them.
  pub scan-IsHardened :
      (cl : Cluster) (container_scan binary_auth : String) (policy : String ⊎ BinaryPolicy)
      (send : Option String) (entries : List CloudScanCheck) (err : Option ScanError)
      → scan marshal img_scan_enabled (record {
        cluster = inr cl;
        container_scan = inr container_scan;
        binary_auth = inr binary_auth;
        policy = policy;
        send = send;
      })
        ≡ sent entries err
      → IsComplete cl
      → All (λ (e : CloudScanCheck). PassesFor e.id e.passed) entries ↔ (
          All IsHardenedPool cl.node_pools
          × IsHardenedNetwork cl
          × IsHardenedAccess cl
          × HasHardenedImages cl img_scan_enabled container_scan binary_auth policy)
  unfolding scan AllPass
  scan-IsHardened cl container_scan binary_auth policy send entries err e complete =
      let a : Answers = record {
        cluster = inr cl;
        container_scan = inr container_scan;
        binary_auth = inr binary_auth;
        policy = policy;
        send = send;
      } in
      let given : any no_config cl.node_pools ≡ false =
        elim (Bool-cases (any no_config cl.node_pools)) [
          | inr h ↦ h
          | inl h ↦
              let clash =
                sym (
                  no_config-crashed marshal img_scan_enabled a cl container_scan binary_auth
                    (refl, refl, refl) h)
                ∙ e in
              cc
        ] in
      let h = send_report-sent marshal img_scan_enabled _ send entries err e in
      let judged = report_of-Judged marshal PassesFor _ entries h in
      let pools = PoolsPass-IsHardenedPool cl.node_pools given complete.1 in
      let network = NetworkPasses-IsHardenedNetwork cl complete.0 in
      let access = AccessPasses-IsHardenedAccess cl in
      let images =
        ImagesPass-HasHardenedImages cl img_scan_enabled container_scan binary_auth policy in
      (
        (λ all.
            let (p, n, c, i) =
              rules_pass cl img_scan_enabled container_scan binary_auth _ given (judged.0 all) in
            (pools.0 p, network.0 n, access.0 c, images.0 i)),
        λ k. judged.1 (
            pass_rules cl img_scan_enabled container_scan binary_auth _ given
              (pools.1 k.0, network.1 k.1, access.1 k.2, images.1 k.3)),
      )
