-- ===== src/Linter/Specs/Polls.antt =====
-- linters/kubebench/controller.go: the polls of the cluster, `waitJobDeleted` and that for the pod of a
-- job in `createKubebenchJob`. `backoff.Retry` polls until the answer is final or the context is done:
-- the answers that it gets before that are the argument.
use kvisor.Base.{List, [], ◌∷◌, ◌++◌, Bool, true, false, All, ◌≡◌, refl, ap}
use kvisor.Linter.Bench.{Answers, Deletion, Logs}

-- An answer to the listing of a job's pods, by the phase of the first pod.
pub data PodAnswer : Type 0 where
  list_failed no_pods pod_succeeded pod_failed pod_in_other_phase : PodAnswer

-- An answer to the request for a job.
pub data JobAnswer : Type 0 where
  job_not_found request_failed still_there : JobAnswer

unfoldable pub pod_poll : List PodAnswer → Bool
pod_poll [] = false
pod_poll (pod_succeeded ∷ answers) = true
pod_poll (pod_failed ∷ answers) = false
pod_poll (list_failed ∷ answers) = pod_poll answers
pod_poll (no_pods ∷ answers) = pod_poll answers
pod_poll (pod_in_other_phase ∷ answers) = pod_poll answers

unfoldable pub wait_job_deleted : List JobAnswer → Bool
wait_job_deleted [] = false
wait_job_deleted (job_not_found ∷ answers) = true
wait_job_deleted (request_failed ∷ answers) = false
wait_job_deleted (still_there ∷ answers) = wait_job_deleted answers

-- The answers to the scan of a node, with those of the polls.
unfoldable pub answers_of : Deletion → List JobAnswer → List PodAnswer → Logs → Bool → Answers
unfolding pod_poll wait_job_deleted
answers_of deletion jobs pods logs sent = record {
  deletion = deletion;
  waited = wait_job_deleted jobs;
  pod_succeeded = pod_poll pods;
  logs = logs;
  sent = sent;
}

-- An answer after which the poll goes on.
abbrev pub goes_on : PodAnswer → Bool
goes_on pod_succeeded = false
goes_on pod_failed = false
goes_on _ = true

-- The pod is seen succeeded, after answers after which the poll goes on.
abbrev pub SeenSucceeded : List PodAnswer → Type 0
SeenSucceeded answers =
    (before : List PodAnswer) × (after : List PodAnswer) × (answers
      ≡ before ++ (pod_succeeded ∷ after))
    × All (λ a. goes_on a ≡ true) before

later :
    (a : PodAnswer) (answers : List PodAnswer)
    → goes_on a ≡ true
    → SeenSucceeded answers
    → SeenSucceeded (a ∷ answers)
later a answers e (before, after, same, all) = (a ∷ before, after, ap (λ l. a ∷ l) same, (e, all))

pub pod_poll-SeenSucceeded :
    (answers : List PodAnswer) → pod_poll answers ≡ true → SeenSucceeded answers
unfolding pod_poll
pod_poll-SeenSucceeded [] e = let clash : false ≡ true = e in cc
pod_poll-SeenSucceeded (pod_succeeded ∷ answers) e = ([], answers, refl, tt)
pod_poll-SeenSucceeded (pod_failed ∷ answers) e = let clash : false ≡ true = e in cc
pod_poll-SeenSucceeded (list_failed ∷ answers) e =
    later list_failed answers refl (pod_poll-SeenSucceeded answers e)
pod_poll-SeenSucceeded (no_pods ∷ answers) e =
    later no_pods answers refl (pod_poll-SeenSucceeded answers e)
pod_poll-SeenSucceeded (pod_in_other_phase ∷ answers) e =
    later pod_in_other_phase answers refl (pod_poll-SeenSucceeded answers e)
