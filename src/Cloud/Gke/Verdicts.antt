-- ===== src/Cloud/Gke/Verdicts.antt =====
-- What a GKE scan sends, and when it crashes.
use text.Mathlib.Text.{◌==◌}
use kvisor.Base.{
  ◌&◌, String, List, [], ◌∷◌, map, Option, none, some, Bool, true, false, if◌then◌else◌, All, any,
  ◌≡◌, ◌⊎◌, inl, inr, refl, ap, sym, ◌∙◌, arith,
}
use kvisor.Cloud.{
  CheckContext, CloudScanCheck, Rule, Made, made, refused, panicked, report_of, run_check, listed,
  manual, tested,
}
use kvisor.Cloud.Reports.{Keeps, id_of, listed_id, report_of-ids, report_of-quiet}
use kvisor.Cloud.Gke.{Cluster}
use kvisor.Cloud.Gke.Settings.{validate_channel}
use kvisor.Cloud.Gke.Access.{BinaryPolicy, validate_binary_authorization}
use kvisor.Cloud.Gke.Failing.{pool_rule-Keeps}
use kvisor.Cloud.Gke.Scan.{
  Answers, crashed, sent, failed, ScanError, marshalling, getting_cluster, getting_container_scan,
  getting_binary_auth, scan, checks_of, binary_policy, send_report,
}

-- No ID stands twice.
abbrev pub distinct : List String → Bool
distinct [] = true
distinct (x ∷ xs) = if any (λ y. x == y) xs then false else distinct xs

-- The checks of the benchmark, in the order of the report.
abbrev pub gke_ids : List String
gke_ids =
    "4.3.1" ∷ "5.1.1" ∷ "5.1.2" ∷ "5.1.3" ∷ "5.1.4" ∷ "5.2.1" ∷ "5.2.2" ∷ "5.3.1" ∷ "5.4.1"
    ∷ "5.4.2" ∷ "5.5.1" ∷ "5.5.2" ∷ "5.5.3" ∷ "5.5.4" ∷ "5.5.5" ∷ "5.5.6" ∷ "5.5.7" ∷ "5.6.1"
    ∷ "5.6.2" ∷ "5.6.3" ∷ "5.6.4" ∷ "5.6.5" ∷ "5.6.6" ∷ "5.6.7" ∷ "5.6.8" ∷ "5.7.1" ∷ "5.7.2"
    ∷ "5.8.1" ∷ "5.8.2" ∷ "5.8.3" ∷ "5.8.4" ∷ "5.9.1" ∷ "5.10.1" ∷ "5.10.2" ∷ "5.10.3" ∷ "5.10.4"
    ∷ "5.10.5" ∷ "5.10.6" ∷ []

manual-Keeps :
    (id description : String) (automated : Bool) → Keeps (manual id description automated)
unfolding run_check
manual-Keeps id description automated c e = ground (arith, e)

tested-Keeps :
    (id description : String) (automated ok : Bool) → Keeps (tested id description automated ok)
unfolding run_check
tested-Keeps id description automated ok c e = ground (arith, e)

channel-Keeps :
    (channel : Option String) (id description : String) (automated : Bool)
    → Keeps (record {
      check = listed id description automated;
      validate = some (validate_channel channel);
    })
unfolding run_check validate_channel
channel-Keeps none id description automated c e = ground (arith, e)
channel-Keeps (some channel) id description automated c e = ground (arith, e)

binary-Keeps :
    (state : String) (mode : Option String) (policy : Option BinaryPolicy) (id description : String)
    (automated : Bool)
    → Keeps (record {
      check = listed id description automated;
      validate = some (validate_binary_authorization state mode policy);
    })
unfolding run_check validate_binary_authorization
binary-Keeps state mode policy id description automated c e = ground (arith, e)

module _ (marshal : CheckContext → String ⊎ String) (img_scan_enabled : Bool) where
  abbrev rules_of : Cluster → String → String → Answers → List Rule
  rules_of cl container_scan binary_auth a =
      checks_of cl container_scan img_scan_enabled binary_auth (binary_policy binary_auth a.policy)

  -- The services answered.
  abbrev pub Answered : Answers → Cluster → String → String → Type 0
  Answered a cl container_scan binary_auth =
      (a.cluster ≡ inr cl)
      × (a.container_scan ≡ inr container_scan)
      × (a.binary_auth ≡ inr binary_auth)

  -- A scan fails at an answer, or comes to the report.
  pub scan_cases :
      (a : Answers)
      → ((err : ScanError) × (scan marshal img_scan_enabled a ≡ failed err))
        ⊎ ((cl : Cluster) × (container_scan : String) × (binary_auth : String) × Answered a cl
              container_scan binary_auth
            × (scan marshal img_scan_enabled a
                ≡ send_report
                    (report_of marshal (rules_of cl container_scan binary_auth a))
                    a.send))
  unfolding scan
  scan_cases a = by_answers a.cluster a.container_scan a.binary_auth refl refl refl
    where
      by_answers :
          (x : String ⊎ Cluster) (y z : String ⊎ String)
          → a.cluster ≡ x
          → a.container_scan ≡ y
          → a.binary_auth ≡ z
          → ((err : ScanError) × (scan marshal img_scan_enabled a ≡ failed err))
            ⊎ ((cl : Cluster) × (container_scan : String) × (binary_auth : String) × Answered a cl
                  container_scan binary_auth
                × (scan marshal img_scan_enabled a
                    ≡ send_report
                        (report_of marshal (rules_of cl container_scan binary_auth a))
                        a.send))
      by_answers (inl x) y z hx hy hz = inl (getting_cluster x, ground (arith, hx))
      by_answers (inr cl) (inl y) z hx hy hz =
          inl (getting_container_scan y, ground (arith, hx, hy))
      by_answers (inr cl) (inr cs) (inl z) hx hy hz =
          inl (getting_binary_auth z, ground (arith, hx, hy, hz))
      by_answers (inr cl) (inr cs) (inr ba) hx hy hz =
          inr (cl, cs, ba, (hx, hy, hz), ground (arith, hx, hy, hz))

  pub send_report-sent :
      (m : Made) (send : Option String) (entries : List CloudScanCheck) (err : Option ScanError)
      → send_report m send ≡ sent entries err
      → m ≡ made entries
  unfolding send_report
  send_report-sent panicked send entries err e = let clash : crashed ≡ sent entries err = e in cc
  send_report-sent (refused x) send entries err e =
      let clash : failed (marshalling x) ≡ sent entries err = e in cc
  send_report-sent (made xs) send entries err e = cc

  checks_of-Keeps :
      (cl : Cluster) (container_scan : String) (binary_auth : String) (a : Answers)
      → All Keeps (rules_of cl container_scan binary_auth a)
  unfolding checks_of
  checks_of-Keeps cl container_scan binary_auth a =
      tested-Keeps _ _ _ _
      & tested-Keeps _ _ _ _
      & manual-Keeps _ _ _
      & manual-Keeps _ _ _
      & manual-Keeps _ _ _
      & pool_rule-Keeps _ _ _ _ cl
      & tested-Keeps _ _ _ _
      & tested-Keeps _ _ _ _
      & pool_rule-Keeps _ _ _ _ cl
      & pool_rule-Keeps _ _ _ _ cl
      & pool_rule-Keeps _ _ _ _ cl
      & pool_rule-Keeps _ _ _ _ cl
      & pool_rule-Keeps _ _ _ _ cl
      & channel-Keeps cl.release_channel _ _ _
      & tested-Keeps _ _ _ _
      & pool_rule-Keeps _ _ _ _ cl
      & pool_rule-Keeps _ _ _ _ cl
      & tested-Keeps _ _ _ _
      & tested-Keeps _ _ _ _
      & tested-Keeps _ _ _ _
      & tested-Keeps _ _ _ _
      & tested-Keeps _ _ _ _
      & manual-Keeps _ _ _
      & tested-Keeps _ _ _ _
      & manual-Keeps _ _ _
      & tested-Keeps _ _ _ _
      & manual-Keeps _ _ _
      & tested-Keeps _ _ _ _
      & tested-Keeps _ _ _ _
      & tested-Keeps _ _ _ _
      & tested-Keeps _ _ _ _
      & manual-Keeps _ _ _
      & tested-Keeps _ _ _ _
      & tested-Keeps _ _ _ _
      & manual-Keeps _ _ _
      & pool_rule-Keeps _ _ _ _ cl
      & binary-Keeps binary_auth cl.binary_authorization_mode (binary_policy binary_auth a.policy) _
          _ _
      & manual-Keeps _ _ _
      & tt

  listed_ids :
      (cl : Cluster) (container_scan binary_auth : String) (a : Answers)
      → map listed_id (rules_of cl container_scan binary_auth a) ≡ gke_ids
  unfolding checks_of
  listed_ids cl container_scan binary_auth a = refl

  once : distinct gke_ids ≡ true
  once = refl

  -- The report that a GKE scan sends has one entry for each check of the benchmark, in the order of
  -- `gke_ids` and no ID twice, and an entry that passed has no context.
  pub scan-report :
      (a : Answers) (entries : List CloudScanCheck) (err : Option ScanError)
      → scan marshal img_scan_enabled a ≡ sent entries err
      → (map id_of entries ≡ gke_ids)
        × (distinct (map id_of entries) ≡ true)
        × All (λ (e : CloudScanCheck). e.passed ≡ true → e.context ≡ none) entries
  scan-report a entries err e = elim (scan_cases a) [
    | inl (err', f) ↦ let clash = sym f ∙ e in cc
    | inr (cl, cs, ba, answered, f) ↦
        let h = send_report-sent _ a.send entries err (sym f ∙ e) in
        let ids =
          report_of-ids marshal _ entries h (checks_of-Keeps cl cs ba a) ∙ listed_ids cl cs ba a in
        (
          ids,
          ap distinct ids ∙ once,
          report_of-quiet marshal _ entries h (checks_of-Keeps cl cs ba a),
        )
  ]
