-- ===== src/Config/Defaults.antt =====
-- What holds of a configuration that `Load` accepts.
use kvisor.Base.{
  ℕ, zero, suc, ℤ, pos, negsuc, String, Option, none, true, false, ◌≡◌, ◌≢◌, refl, ap, ◌∙◌, sym,
  arith, Bool-cases, ◌⊎◌, inl, inr, eq_str, eq_str-test, subst,
}
use kvisor.Config.{
  ImageScan, CloudScan, KubeBench, Linter, Config, image_scan_defaults, cloud_scan_defaults,
  kube_bench_defaults, linter_defaults, kube_client_defaults, set_defaults, load, or_number,
  or_text,
}

or_number_again : (x : ℤ) (n : ℕ) → or_number (or_number x n) n ≡ or_number x n
or_number_again (pos zero) zero = refl
or_number_again (pos zero) (suc n) = refl
or_number_again (pos (suc m)) n = refl
or_number_again (negsuc m) n = refl

or_text_again : (s default : String) → or_text (or_text s default) default ≡ or_text s default
or_text_again s default = ground arith

image_scan_again :
    (c : ImageScan) → image_scan_defaults (image_scan_defaults c) ≡ image_scan_defaults c
unfolding image_scan_defaults
image_scan_again c = elim (Bool-cases c.enabled) [
  | inl on ↦ simp (on, or_number_again, or_text_again)
  | inr off ↦ simp off
]

cloud_scan_again :
    (c : CloudScan) → cloud_scan_defaults (cloud_scan_defaults c) ≡ cloud_scan_defaults c
unfolding cloud_scan_defaults
cloud_scan_again c = elim (Bool-cases c.enabled) [
  | inl on ↦ simp (on, or_number_again)
  | inr off ↦ simp off
]

kube_bench_again :
    (c : KubeBench) → kube_bench_defaults (kube_bench_defaults c) ≡ kube_bench_defaults c
unfolding kube_bench_defaults
kube_bench_again c = elim (Bool-cases c.enabled) [
  | inl on ↦ simp (on, or_number_again, or_text_again)
  | inr off ↦ simp off
]

linter_again : (c : Linter) → linter_defaults (linter_defaults c) ≡ linter_defaults c
unfolding linter_defaults
linter_again c = elim (Bool-cases c.enabled) [
  | inl on ↦ simp (on, or_number_again)
  | inr off ↦ simp off
]

set_defaults_again : (cfg : Config) → set_defaults (set_defaults cfg) ≡ set_defaults cfg
unfolding set_defaults kube_client_defaults
set_defaults_again cfg = simp (
  image_scan_again, cloud_scan_again, kube_bench_again, linter_again, or_number_again,
  or_text_again,
)

or_text_filled :
    (s default : String) → eq_str default "" ≡ false → eq_str (or_text s default) "" ≡ false
or_text_filled s default h = ground (arith, h)

or_number_filled : (x : ℤ) (n : ℕ) → or_number x (suc n) ≢ pos 0
or_number_filled (pos zero) n e = cc
or_number_filled (pos (suc m)) n e = cc
or_number_filled (negsuc m) n e = cc

-- The settings that the scheduling of scans and the scan jobs rely on.
pub record Scanning (c : ImageScan) : Type 0 where
  pub concurrent : c.max_concurrent_scans ≢ pos 0
  pub interval : c.scan_interval ≢ pos 0
  pub timeout : c.scan_timeout ≢ pos 0
  pub cpu_request : eq_str c.cpu_request "" ≡ false
  pub memory_request : eq_str c.memory_request "" ≡ false

image_scan_defaults-Scanning : (c : ImageScan) → c.enabled ≡ true → Scanning (image_scan_defaults c)
unfolding image_scan_defaults
image_scan_defaults-Scanning c on = simp on (record {
  concurrent = or_number_filled c.max_concurrent_scans _;
  interval = or_number_filled c.scan_interval _;
  timeout = or_number_filled c.scan_timeout _;
  cpu_request = or_text_filled c.cpu_request "1m" (eq_str-test "1m" "");
  memory_request = or_text_filled c.memory_request "1Mi" (eq_str-test "1Mi" "");
})

cloud_scan_defaults-interval :
    (c : CloudScan)
    → (cloud_scan_defaults c).enabled ≡ true
    → (cloud_scan_defaults c).scan_interval ≢ pos 0
unfolding cloud_scan_defaults
cloud_scan_defaults-interval c on = elim (Bool-cases c.enabled) [
  | inl e ↦ simp e (or_number_filled c.scan_interval _)
  | inr e ↦ ground (arith, e, on)
]

kube_bench_defaults-interval :
    (c : KubeBench)
    → (kube_bench_defaults c).enabled ≡ true
    → (kube_bench_defaults c).scan_interval ≢ pos 0
unfolding kube_bench_defaults
kube_bench_defaults-interval c on = elim (Bool-cases c.enabled) [
  | inl e ↦ simp e (or_number_filled c.scan_interval _)
  | inr e ↦ ground (arith, e, on)
]

linter_defaults-interval :
    (c : Linter) → (linter_defaults c).enabled ≡ true → (linter_defaults c).scan_interval ≢ pos 0
unfolding linter_defaults
linter_defaults-interval c on = elim (Bool-cases c.enabled) [
  | inl e ↦ simp e (or_number_filled c.scan_interval _)
  | inr e ↦ ground (arith, e, on)
]

image_scan_defaults-enabled : (c : ImageScan) → (image_scan_defaults c).enabled ≡ c.enabled
unfolding image_scan_defaults
image_scan_defaults-enabled c = ground arith

-- The settings that the controllers rely on.
pub record Usable (parse_level : String → Option String) (cfg : Config) : Type 0 where
  pub url : eq_str cfg.api.url "" ≡ false
  pub key : eq_str cfg.api.key "" ≡ false
  pub cluster_id : eq_str cfg.api.cluster_id "" ≡ false
  pub level : parse_level cfg.log_level ≡ none
  pub ports : (cfg.http_port ≢ pos 0) × (cfg.status_port ≢ pos 0)
  pub intervals : (cfg.delta_sync_interval ≢ pos 0) × (cfg.telemetry_interval ≢ pos 0)
  pub cloud_scans : cfg.cloud_scan.enabled ≡ true → cfg.cloud_scan.scan_interval ≢ pos 0
  pub bench_scans : cfg.kube_bench.enabled ≡ true → cfg.kube_bench.scan_interval ≢ pos 0
  pub lints : cfg.linter.enabled ≡ true → cfg.linter.scan_interval ≢ pos 0
  pub scans : cfg.image_scan.enabled ≡ true → Scanning cfg.image_scan

module _ (parse_level : String → Option String) (debug_level : parse_level "debug" ≡ none) where
  load_cases :
      (cfg cfg' : Config)
      → load parse_level cfg ≡ inr cfg'
      → (eq_str cfg.api.url "" ≡ false)
        × (eq_str cfg.api.key "" ≡ false)
        × (eq_str cfg.api.cluster_id "" ≡ false)
        × ((eq_str cfg.log_level "" ≡ true)
            ⊎ ((eq_str cfg.log_level "" ≡ false) × (parse_level cfg.log_level ≡ none)))
        × (set_defaults cfg ≡ cfg')
  unfolding load
  load_cases cfg cfg' e = ground (arith, e)

  level_parsed :
      (cfg : Config)
      → ((eq_str cfg.log_level "" ≡ true)
          ⊎ ((eq_str cfg.log_level "" ≡ false) × (parse_level cfg.log_level ≡ none)))
      → parse_level (or_text cfg.log_level "debug") ≡ none
  level_parsed cfg (inl empty) = ground (arith, empty, debug_level)
  level_parsed cfg (inr (there, known)) = ground (arith, there, known)

  set_defaults-Usable :
      (cfg : Config)
      → eq_str cfg.api.url "" ≡ false
      → eq_str cfg.api.key "" ≡ false
      → eq_str cfg.api.cluster_id "" ≡ false
      → parse_level (or_text cfg.log_level "debug") ≡ none
      → Usable parse_level (set_defaults cfg)
  unfolding set_defaults
  set_defaults-Usable cfg url key cluster_id level = record {
    url = url;
    key = key;
    cluster_id = cluster_id;
    level = level;
    ports = (or_number_filled cfg.http_port _, or_number_filled cfg.status_port _);
    intervals =
        (or_number_filled cfg.delta_sync_interval _, or_number_filled cfg.telemetry_interval _);
    cloud_scans = cloud_scan_defaults-interval cfg.cloud_scan;
    bench_scans = kube_bench_defaults-interval cfg.kube_bench;
    lints = linter_defaults-interval cfg.linter;
    scans = λ on.
        image_scan_defaults-Scanning cfg.image_scan
          (sym (image_scan_defaults-enabled cfg.image_scan) ∙ on);
  }

  load_accepts :
      (cfg : Config)
      → Usable parse_level cfg
      → eq_str cfg.log_level "" ≡ false
      → load parse_level cfg ≡ inr (set_defaults cfg)
  unfolding load
  load_accepts cfg ok level = ground (arith, ok.url, ok.key, ok.cluster_id, ok.level, level)

  set_defaults-level : (cfg : Config) → eq_str (set_defaults cfg).log_level "" ≡ false
  unfolding set_defaults
  set_defaults-level cfg = or_text_filled cfg.log_level "debug" (eq_str-test "debug" "")

  -- A configuration that `Load` returns has what the controllers rely on: the URL, the key and the
  -- cluster are given, the level of the log parses, the HTTP port, the status port and the intervals of
  -- the deltas and of telemetry are not 0, nor is the interval of the cloud scans, of the checks of
  -- nodes or of the linter, where it is enabled; and, if images are scanned, the interval, the timeout
  -- and the number of concurrent scans are not 0 and the requests of the scan job are given.
  -- Loading it once more accepts it and changes nothing. This holds if the default level parses.
  pub load-Usable :
      (cfg cfg' : Config)
      → load parse_level cfg ≡ inr cfg'
      → Usable parse_level cfg' × (load parse_level cfg' ≡ inr cfg')
  load-Usable cfg cfg' e =
      let (url, key, cluster_id, level, same) = load_cases cfg cfg' e in
      let ok = set_defaults-Usable cfg url key cluster_id (level_parsed cfg level) in
      (
        subst (Usable parse_level) same ok,
        subst (λ c. load parse_level c ≡ inr c) same
            (load_accepts (set_defaults cfg) ok (set_defaults-level cfg)
              ∙ ap inr (set_defaults_again cfg)),
      )
