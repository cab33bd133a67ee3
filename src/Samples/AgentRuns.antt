-- ===== src/Samples/AgentRuns.antt =====
-- The features and the clean-up of jobs, at concrete values.
use kvisor.Agent.Features.{Config}
use kvisor.Agent.Manager.{TelemetryResponse, Watched}
use kvisor.Base.{true, false, [], ◌∷◌, String, List, [], ◌∷◌, true, false, map, keep, eq_str}
use kvisor.Agent.Features.{Config}
use kvisor.Agent.Cleanup.{OldJob, is_old, cleanup_jobs}
use kvisor.Agent.Cleanup.Deleted.{Cleaned, cleanup_jobs-Cleaned}

abbrev config : Config
config = record { linter_enabled = true; kube_bench_enabled = false; image_scan_enabled = true }

abbrev disabled : List String
disabled = "linter" ∷ "other" ∷ []

abbrev jobs : List OldJob
jobs =
    record { name = "scan-1"; created_at = 10 }
    ∷ record { name = "scan-2"; created_at = 90 }
    ∷ record { name = "scan-3"; created_at = 20 }
    ∷ []

cleanup_jobs-Cleaned_example :
    Cleaned
      (λ name. eq_str name "scan-1")
      (map (λ job. job.name) (keep (is_old 100 50) jobs))
      (cleanup_jobs (λ name. eq_str name "scan-1") 100 50 jobs)
cleanup_jobs-Cleaned_example = cleanup_jobs-Cleaned (λ name. eq_str name "scan-1") 100 50 jobs

abbrev enforcing : Watched
enforcing = record {
  enforcer = record { enforced_rules = "old" ∷ []; bundle_rules = [] };
  derived_cancelled = false;
}

abbrev all_on : Config
all_on = record { linter_enabled = true; kube_bench_enabled = true; image_scan_enabled = true }

abbrev update : TelemetryResponse
update = record { disabled_features = "linter" ∷ []; enforced_rules = "new" ∷ [] }

-- A response that comes when the context is done.
abbrev ignored : TelemetryResponse
ignored = record { disabled_features = []; enforced_rules = [] }
