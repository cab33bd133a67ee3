-- ===== src/Kube/Informers/Coverage.antt =====
-- Whether the informers that the subscribers ask for exist, by the minor version of the cluster.
use kvisor.Base.{
  ℕ, ◌≤◌, ◌<◌, ◌≡◌, refl, ◌⊎◌, inl, inr, ◌≢◌, true, false, none, some, arith, leb, Bool-cases,
}
use kvisor.Kube.Object.{type_cron_job, ResourceType-discrete}
use kvisor.Kube.Informers.{
  type_informers, Subscriber, delta_subscriber, image_scan_subscriber, kube_bench_subscriber,
  linter_subscriber, required_informers, run_subscriber, no_informer,
}

-- Once the caches have synced, every subscriber starts, but for the linter on a cluster of a minor
-- version before 21: it asks for the CronJob informer of batch/v1, which is not there.
pub run_subscriber_cases :
    (minor : ℕ) (s : Subscriber)
    → ((21 ≤ minor) ⊎ (s ≢ linter_subscriber)
        → run_subscriber (type_informers minor) (required_informers minor s) true ≡ none)
      × (minor < 21
          → run_subscriber (type_informers minor) (required_informers minor linter_subscriber) true
            ≡ some (no_informer type_cron_job))
unfolding run_subscriber type_informers required_informers ResourceType-discrete
run_subscriber_cases minor s =
    (starts s, λ h. let old : leb 21 minor ≡ false = ground arith in rw old refl)
  where
    starts :
        (s : Subscriber)
        → (21 ≤ minor) ⊎ (s ≢ linter_subscriber)
        → run_subscriber (type_informers minor) (required_informers minor s) true ≡ none
    starts delta_subscriber h = elim (Bool-cases (leb 21 minor)) [
      | inl e ↦ rw e refl
      | inr e ↦ rw e refl
    ]
    starts image_scan_subscriber h = refl
    starts kube_bench_subscriber h = refl
    starts linter_subscriber (inl new) = let e : leb 21 minor ≡ true = ground arith in rw e refl
    starts linter_subscriber (inr other) = absurd (other refl)
