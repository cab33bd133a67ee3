-- ===== src/Agent/Cleanup/Deleted.antt =====
-- Which jobs are deleted.
use kvisor.Base.{
  ℕ, String, ◌≡◌, refl, ap, List, [], ◌∷◌, ◌++◌, map, keep, All, Bool, true, false, Bool-cases, inl,
  inr,
}
use kvisor.Agent.Cleanup.{OldJob, is_old, cleanup_jobs}

-- The deletions that were to be made: those that were made, then, if one failed, that one and the
-- rest.
pub record Cleaned (deletes : String → Bool) (old : List String) (result : List String × Bool)
    : Type 0 where
  pub left : List String
  pub in_order : result.0 ++ left ≡ old
  pub done : result.1 ≡ true → left ≡ []
  pub deleted : All (λ name. deletes name ≡ true) result.0
  pub stopped :
      result.1 ≡ false
      → (name : String) × (others : List String) × (left ≡ name ∷ others) × (deletes name ≡ false)

step-Cleaned :
    (deletes : String → Bool) (now age : ℕ) (job : OldJob) (jobs : List OldJob)
    → Cleaned deletes
        (map (λ job. job.name) (keep (is_old now age) jobs))
        (cleanup_jobs deletes now age jobs)
    → Cleaned deletes
        (map (λ job. job.name) (keep (is_old now age) (job ∷ jobs)))
        (cleanup_jobs deletes now age (job ∷ jobs))
unfolding cleanup_jobs
step-Cleaned deletes now age job jobs rest = elim (Bool-cases (is_old now age job)) [
  | inl old ↦ elim (Bool-cases (deletes job.name)) [
    | inl gone ↦ rw old (
        rw gone (record {
          left = rest.left;
          in_order = ap (λ names. job.name ∷ names) rest.in_order;
          done = rest.done;
          deleted = (gone, rest.deleted);
          stopped = rest.stopped;
        }))
    | inr kept ↦ rw old (
        rw kept (record {
          left = map (λ job. job.name) (job ∷ keep (is_old now age) jobs);
          in_order = refl;
          done = λ e. cc;
          deleted = tt;
          stopped = λ e. (job.name, map (λ job. job.name) (keep (is_old now age) jobs), refl, kept);
        }))
  ]
  | inr young ↦ rw young rest
]

-- The jobs that are older than the age are deleted in the order of the list, and no younger one is:
-- all of them if no deletion fails, and otherwise those before the first whose deletion fails.
pub cleanup_jobs-Cleaned :
    (deletes : String → Bool) (now age : ℕ) (jobs : List OldJob)
    → Cleaned deletes
        (map (λ job. job.name) (keep (is_old now age) jobs))
        (cleanup_jobs deletes now age jobs)
unfolding cleanup_jobs
cleanup_jobs-Cleaned deletes now age [] = record {
  left = [];
  in_order = refl;
  done = λ e. refl;
  deleted = tt;
  stopped = λ e. cc;
}
cleanup_jobs-Cleaned deletes now age (job ∷ jobs) =
    step-Cleaned deletes now age job jobs (cleanup_jobs-Cleaned deletes now age jobs)
