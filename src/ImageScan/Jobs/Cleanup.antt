-- ===== src/ImageScan/Jobs/Cleanup.antt =====
-- What `ScanImage` asks of the cluster, and when it reports success.
use mathlib.Core.List.{◌++◌, append-nil}
use kvisor.Base.{
  ℕ, suc, String, List, [], ◌∷◌, Option, none, some, Bool, true, false, ◌≡◌, ◌↔◌, refl, All,
  if◌then◌else◌, arith, Option-cases, inl, inr, ◌⊎◌, ◌>>=◌,
}
use kvisor.ImageScan.Jobs.Spec.{ScannerConfig, ScanImageParams, ScanJob}
use kvisor.ImageScan.Jobs.Wait.{Observation, wait_for_completion}
use kvisor.ImageScan.Jobs.Scan.{
  Call, get_job, create_job, wait_for, list_pods, delete_job, deleted, already_gone, Answers,
  Outcome, was_found, missing, gen_job_name, job_of, create_and_wait, run_job, wait_ends, clean_up,
  scan_image,
}
use kvisor.ImageScan.Jobs.Mounts.{job_of-Unprivileged}

module _ {Q : Type 0} where
  -- The name of the job that a call is about.
  abbrev pub call_name : Call Q → String
  call_name (get_job n) = n
  call_name (create_job job) = job.name
  call_name (wait_for n) = n
  call_name (list_pods n) = n
  call_name (delete_job n) = n

  abbrev pub creations : List (Call Q) → ℕ
  creations [] = 0
  creations (create_job job ∷ calls) = suc (creations calls)
  creations (get_job n ∷ calls) = creations calls
  creations (wait_for n ∷ calls) = creations calls
  creations (list_pods n ∷ calls) = creations calls
  creations (delete_job n ∷ calls) = creations calls

  -- The calls are about one job, which they create unless it was found.
  pub record About (name : String) (exists : Bool) (calls : List (Call Q)) : Type 0 where
    pub named : All (λ c. call_name c ≡ name) calls
    pub created : creations calls ≡ (if exists then 0 else 1)

module _ {Q : Type 0} (fmt_int : ℕ → String)
    (poll : (Observation → Bool × Option String) → List Observation → Option String) where
  run_job-About :
      (params : ScanImageParams) (answers : Answers) (job : ScanJob Q) (name : String)
      → job.name ≡ name
      → About name (was_found answers.get) (run_job fmt_int poll params answers job name).calls
  unfolding run_job create_and_wait
  run_job-About params answers job name e = record {
    named = ground (arith, e);
    created = ground (arith, e);
  }

  run_job-result :
      (params : ScanImageParams) (answers : Answers) (job : ScanJob Q) (name : String)
      → params.wait_for_completion ≡ true
      → ((run_job fmt_int poll params answers job name).result ≡ none) ↔ (
          (((was_found answers.get) ≡ true) ⊎ (answers.create_error ≡ none))
          × (wait_for_completion fmt_int poll answers.rounds ≡ none))
  unfolding run_job create_and_wait
  run_job-result params answers job name e = ground (arith, e)

abbrev pub deletes : ScanImageParams → Answers → Bool
deletes params answers = elim (wait_ends params answers) [
  | none ↦ params.delete_finished_job
  | some err ↦ false
]

module _ {Q : Type 0} (must_parse : String → Option Q) (fnv_hex : String → String)
    (fmt_int : ℕ → String)
    (poll : (Observation → Bool × Option String) → List Observation → Option String) where
  pub scan_image-run :
      (cfg : ScannerConfig) (params : ScanImageParams) (answers : Answers) (job : ScanJob Q)
      → missing cfg params ≡ none
      → job_of must_parse fnv_hex cfg params ≡ some job
      → let name = gen_job_name fnv_hex params.image_name in
        let run = run_job fmt_int poll params answers job name in
        scan_image must_parse fnv_hex fmt_int poll cfg params answers
        ≡ some (if params.delete_finished_job then clean_up params answers job.name run else run)
  unfolding scan_image ◌>>=◌
  scan_image-run cfg params answers job complete made =
      rw (complete, scan_image, made, ◌>>=◌) (ground arith)

  -- A scan whose parameters are complete asks the cluster about one job only, the one that is named
  -- after the image: it asks once to create this job if the look-up does not return it, be it absent or the look-up
  -- failed, and never if the look-up returns it; and as its last call it deletes this job, however the scan itself ended, if the job is to be deleted
  -- and the context does not end in the wait before. Nothing else is deleted.
  pub scan_image-About :
      (cfg : ScannerConfig) (params : ScanImageParams) (answers : Answers) (job : ScanJob Q)
      → missing cfg params ≡ none
      → job_of must_parse fnv_hex cfg params ≡ some job
      → let name = gen_job_name fnv_hex params.image_name in
        (out : Outcome Q) × (scan_image must_parse fnv_hex fmt_int poll cfg params answers
          ≡ some out)
        × (body : List (Call Q)) × About name (was_found answers.get) body
        × (out.calls ≡ body ++ (if deletes params answers then delete_job name ∷ [] else []))
  unfolding clean_up
  scan_image-About cfg params answers job complete made =
      let name = gen_job_name fnv_hex params.image_name in
      let named = (job_of-Unprivileged must_parse fnv_hex cfg params job made).named in
      let run = run_job fmt_int poll params answers job name in
      (
        _,
        scan_image-run cfg params answers job complete made,
        run.calls,
        run_job-About fmt_int poll params answers job name named,
        ground (arith, named, append-nil run.calls),
      )

  -- A scan that waits for its job and deletes it, as the controller asks, reports success exactly
  -- if its parameters are complete, the look-up returned the job or it was created, the wait for it succeeded, the
  -- context did not end in the wait before the deletion, and the deletion did not fail.
  pub scan_image-succeeds :
      (cfg : ScannerConfig) (params : ScanImageParams) (answers : Answers) (job : ScanJob Q)
      → params.wait_for_completion ≡ true
      → params.delete_finished_job ≡ true
      → job_of must_parse fnv_hex cfg params ≡ some job
      → (out : Outcome Q) × (scan_image must_parse fnv_hex fmt_int poll cfg params answers
          ≡ some out)
        × ((out.result ≡ none) ↔ (
            (missing cfg params ≡ none)
            × (((was_found answers.get) ≡ true) ⊎ (answers.create_error ≡ none))
            × (wait_for_completion fmt_int poll answers.rounds ≡ none)
            × (wait_ends params answers ≡ none)
            × ((answers.delete ≡ deleted) ⊎ (answers.delete ≡ already_gone))))
  unfolding clean_up scan_image
  scan_image-succeeds cfg params answers job waits deleting made =
      let name = gen_job_name fnv_hex params.image_name in
      let run = run_job fmt_int poll params answers job name in
      elim (Option-cases (missing cfg params)) [
        | inr (err, e) ↦
            (record { calls = []; result = some err }, rw (e, scan_image) refl, ground (arith, e))
        | inl complete ↦ (
          _,
          scan_image-run cfg params answers job complete made,
          ground (
            arith,
            complete,
            deleting,
            run_job-result fmt_int poll params answers job name waits,
          ),
        )
      ]
