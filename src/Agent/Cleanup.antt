-- ===== src/Agent/Cleanup.antt =====
-- jobsgc/jobsgc.go: `cleanupJobs` on the jobs that were listed. Whether the cluster deletes a job is
-- the argument `deletes`; times are in seconds.
pub mod Deleted
use kvisor.Base.{ℕ, ◌+◌, String, List, [], ◌∷◌, Bool, true, false, if◌then◌else◌, ltb}

pub record OldJob : Type 0 where
  pub name : String
  pub created_at : ℕ

-- Whether the job was created before `now - age`.
abbrev pub is_old : ℕ → ℕ → OldJob → Bool
is_old now age job = ltb (job.created_at + age) now

-- The names of the deleted jobs, and whether all went well.
unfoldable pub cleanup_jobs : (String → Bool) → ℕ → ℕ → List OldJob → List String × Bool
cleanup_jobs deletes now age [] = ([], true)
cleanup_jobs deletes now age (job ∷ jobs) =
    let (deleted, ok) = cleanup_jobs deletes now age jobs in
    if is_old now age job
    then if deletes job.name then (job.name ∷ deleted, ok) else ([], false)
    else (deleted, ok)
