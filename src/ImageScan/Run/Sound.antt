-- ===== src/ImageScan/Run/Sound.antt =====
-- The settings with which neither `Run` nor the goroutines of scans panic.
use mathlib.Core.List.{Perm}
use kvisor.Base.{ℕ, suc, ℤ, pos, List, none, some, ◌≡◌, ◌≢◌, sym, ap, ◌∙◌, subst, Bool}
use kvisor.ImageScan.State.{NodeUsage, Image, DeltaState}
use kvisor.ImageScan.State.Invariant.{Inv}
use kvisor.ImageScan.Select.{ScanConfig, panicked, find_best_node_and_mode}
use kvisor.ImageScan.Select.Resolved.{Resolved, find_best_node_and_mode-Resolved}
use kvisor.ImageScan.Jobs.Mounts.{QuantitiesParse, job_of_made}
use kvisor.ImageScan.Run.{Scans, ScanPanics, no_choice, no_job, idle, after_delay}

-- The interval between scans is positive, the number of concurrent scans is not negative, the
-- quantities parse, and `sort.Slice` permutes the nodes.
pub record Sound (cfg : ScanConfig) (scans : Scans) : Type 0 where
  pub interval : (n : ℕ) × (cfg.scan_interval ≡ pos (suc n))
  pub limit : (n : ℕ) × (cfg.max_concurrent_scans ≡ pos n)
  pub memory : (q : ℤ) × (cfg.memory_request ≡ some q)
  pub cpu : (q : ℤ) × (cfg.cpu_request ≡ some q)
  pub quantities : QuantitiesParse scans.must_parse scans.scanner
  pub nodes_perm :
      (less : NodeUsage → NodeUsage → Bool) (xs : List NodeUsage)
      → Perm (scans.sort_nodes less xs) xs

module _ (cfg : ScanConfig) (scans : Scans) (sound : Sound cfg scans) where
  pub after_delay-idle : after_delay cfg.scan_interval ≡ idle
  after_delay-idle = ap after_delay sound.interval.1

  not_panicked :
      (d : DeltaState) (img : Image)
      → Inv d
      → find_best_node_and_mode scans.sort_nodes cfg d img ≢ panicked
  not_panicked d img good e = subst (Resolved cfg sound.memory.0 sound.cpu.0 d img) e (
      find_best_node_and_mode-Resolved scans.sort_nodes sound.nodes_perm cfg d good img
        sound.memory.0 sound.cpu.0 sound.memory.1 sound.cpu.1)

  pub never_panics : (d : DeltaState) (img : Image) → Inv d → ¬ (ScanPanics cfg scans d img)
  never_panics d img good (no_choice e) = not_panicked d img good e
  never_panics d img good (no_job params e) =
      let (job, made) =
        job_of_made scans.must_parse scans.fnv_hex scans.scanner params sound.quantities in
      let clash : none ≡ some job = sym e ∙ made in cc
