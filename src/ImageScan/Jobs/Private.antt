-- ===== src/ImageScan/Jobs/Private.antt =====
-- imagescan/scanner.go, errors.go and controller.go together: the log of a job that failed on a
-- private image is recognised through all the wrapping.
use mathlib.Core.List.{◌++◌}
use Prim.Native.String.append as append
use Prim.Native.String.{◌++◌ as ◌<>◌}
use Prim.Native.Char.{code}
use kvisor.Base.{
  ℕ, String, lookup, List, [], ◌∷◌, Option, none, some, Bool, true, false, ◌≡◌, refl, any, arith,
  Bool-cases, inl, inr, subst, sym, ap, ◌∙◌, ◌<◌,
}
use kvisor.ImageScan.State.{private_image, Image, DeltaState, Backoff}
use kvisor.ImageScan.Runtime.{codes, starts_with}
use kvisor.ImageScan.Schedule.{end_scan, failed, is_image_pending}
use kvisor.ImageScan.Schedule.Ends.{end_scan_quiet}
use kvisor.ImageScan.Jobs.Spec.{ScannerConfig, ScanImageParams, ScanJob}
use kvisor.ImageScan.Jobs.Wait.{
  JobCondition, get_pod_conditions_string, job_found, Observation, JobPod, pods_listed, log_read,
  holds, check_job, wait_for_completion, failed_job_error, get_job_pod,
}
use kvisor.ImageScan.Jobs.Scan.{
  Answers, Outcome, missing, gen_job_name, job_of, create_and_wait, run_job, wait_error, wait_ends,
  was_found, clean_up, scan_image, deleted,
}
use kvisor.ImageScan.Jobs.Polls.{PollLaws}
use kvisor.ImageScan.Jobs.Cleanup.{scan_image-run}
use kvisor.ImageScan.Jobs.Errors.{
  contains, private_parts, is_private_image_error, parse_error_from_log,
}

-- What a poll sees of a job under these conditions, with its one pod and the pod's log.
abbrev pub observed : List JobCondition → JobPod → String → Observation
observed conds pod text = record {
  job = job_found conds;
  pods = pods_listed (pod ∷ []);
  log = log_read text;
}

codes-append : (a b : String) → codes (a <> b) ≡ codes a ++ codes b
codes-append String.[] b = ap codes (append.nil b)
codes-append (String.◌∷◌ c a) b =
    ap codes (append.cons c a b) ∙ ap (λ s. code c ∷ s) (codes-append a b)

starts_with-contains : (s part : List ℕ) → starts_with part s ≡ true → contains s part ≡ true
unfolding contains
starts_with-contains [] part h = h
starts_with-contains (c ∷ s) part h = ground (arith, h)

contains-append : (a b part : List ℕ) → contains b part ≡ true → contains (a ++ b) part ≡ true
unfolding contains
contains-append [] b part h = h
contains-append (c ∷ a) b part h = ground (arith, contains-append a b part h)

any-implies {ℓ} :
    {A : Type ℓ} (p q : A → Bool) (xs : List A)
    → ((x : A) → p x ≡ true → q x ≡ true)
    → any p xs ≡ true
    → any q xs ≡ true
any-implies p q [] h e = e
any-implies p q (x ∷ xs) h e = elim (Bool-cases (p x)) [
  | inl here ↦ ground (arith, h x here)
  | inr there ↦ ground (arith, there, e, any-implies p q xs h)
]

module _ (to_lower : List ℕ → List ℕ) (find_submatch : List ℕ → Option (List (String × String)))
    (to_lower-append : (a b : List ℕ) → to_lower (a ++ b) ≡ to_lower a ++ to_lower b) where
  wrapped_private :
      (a b : String)
      → is_private_image_error to_lower find_submatch b ≡ true
      → is_private_image_error to_lower find_submatch (a <> b) ≡ true
  unfolding is_private_image_error
  wrapped_private a b h =
      subst (λ s. any (λ part. contains s (codes part)) private_parts ≡ true)
        (sym (ap to_lower (codes-append a b) ∙ to_lower-append (codes a) (codes b)))
        (any-implies _ _ private_parts
          (λ part. contains-append (to_lower (codes a)) (to_lower (codes b)) (codes part)) h)

  private_parsed :
      (err : String)
      → is_private_image_error to_lower find_submatch err ≡ true
      → parse_error_from_log to_lower find_submatch err ≡ private_image
  unfolding parse_error_from_log
  private_parsed err h = rw h refl

  module _ (fmt_int : ℕ → String)
      (poll : (Observation → Bool × Option String) → List Observation → Option String)
      (laws : PollLaws poll) where
    private_wait :
        (answers : Answers) (conds : List JobCondition) (pod : JobPod) (text : String)
        (xs : List Observation)
        → holds "Complete" conds ≡ false
        → holds "Failed" conds ≡ true
        → answers.rounds ≡ observed conds pod text ∷ xs
        → wait_for_completion fmt_int poll answers.rounds ≡ some ("scan job failed: " <> text)
    unfolding wait_for_completion check_job failed_job_error get_job_pod
    private_wait answers conds pod text xs running failing seen =
        let x = observed conds pod text in
        subst (λ rounds. poll (check_job fmt_int) rounds ≡ some ("scan job failed: " <> text))
          (sym seen) (ground (arith, running, failing, laws.ends (check_job fmt_int) x xs))

    wait_error-private :
        (answers : Answers) (err : String)
        → is_private_image_error to_lower find_submatch err ≡ true
        → is_private_image_error to_lower find_submatch (wait_error fmt_int answers err) ≡ true
    unfolding wait_error
    wait_error-private answers err h =
        elim (get_job_pod fmt_int answers.pods_after)
          as (λ o.
            is_private_image_error to_lower find_submatch (elim o [
              | inl _ ↦ "wait for completion: " <> err
              | inr pod ↦
                  "wait for completion, pod_conditions="
                  <> (get_pod_conditions_string pod.conditions <> (": " <> err))
            ])
            ≡ true) [
              | inl _ ↦ wrapped_private "wait for completion: " err h
              | inr pod ↦ wrapped_private "wait for completion, pod_conditions=" _ (
                  wrapped_private (get_pod_conditions_string pod.conditions) _
                    (wrapped_private ": " err h))
            ]

    module _ {Q : Type 0} where
      run_job-private :
          (params : ScanImageParams) (answers : Answers) (job : ScanJob Q) (name err : String)
          → params.wait_for_completion ≡ true
          → answers.create_error ≡ none
          → wait_for_completion fmt_int poll answers.rounds ≡ some err
          → is_private_image_error to_lower find_submatch err ≡ true
          → (e : String) × ((run_job fmt_int poll params answers job name).result ≡ some e)
            × (is_private_image_error to_lower find_submatch e ≡ true)
      unfolding run_job create_and_wait
      run_job-private params answers job name err waits created fails h =
          elim (Bool-cases (was_found answers.get)) [
            | inl there ↦ (
              _,
              ground (arith, there, fails),
              wrapped_private "job already exist, wait for completion: " err h,
            )
            | inr absent ↦
                (_, ground (arith, absent, created, waits, fails), wait_error-private answers err h)
          ]

      -- A log that says that the image is private, in the words of `isPrivateImageError`, keeps the
      -- image from all further scans: if the first poll finds the job failed, with one pod whose
      -- log has such a word, then `ScanImage` returns an error, unless the wait before the deletion
      -- or the deletion has an error of its own; `parseErrorFromLog` finds the image private in it,
      -- through all the wrapping; and the image, if it is still there, is not pending at any later
      -- time. This is so if the poll does what it is documented to do, `strings.ToLower` works
      -- character by character, and the delay of the backoff is not 0.
      pub scan_image-private :
          (must_parse : String → Option Q) (fnv_hex : String → String) (cfg : ScannerConfig)
          (params : ScanImageParams) (answers : Answers) (job : ScanJob Q)
          (conds : List JobCondition) (pod : JobPod) (text : String) (xs : List Observation)
          (step : Backoff → ℕ × Backoff) (d : DeltaState) (key : String) (img : Image) (now : ℕ)
          → missing cfg params ≡ none
          → job_of must_parse fnv_hex cfg params ≡ some job
          → params.wait_for_completion ≡ true
          → answers.create_error ≡ none
          → holds "Complete" conds ≡ false
          → holds "Failed" conds ≡ true
          → answers.rounds ≡ observed conds pod text ∷ xs
          → is_private_image_error to_lower find_submatch text ≡ true
          → wait_ends params answers ≡ none
          → answers.delete ≡ deleted
          → lookup key d.images ≡ some img
          → 0 < (step img.retry_backoff).0
          → (out : Outcome Q) × (scan_image must_parse fnv_hex fmt_int poll cfg params answers
              ≡ some out)
            × (err : String) × (out.result ≡ some err)
            × (parse_error_from_log to_lower find_submatch err ≡ private_image)
            × ((t : ℕ)
                → (img' : Image) × (lookup key
                      (end_scan step d now key
                        (failed (parse_error_from_log to_lower find_submatch err))).images
                    ≡ some img')
                  × (is_image_pending img' t ≡ false))
      unfolding clean_up
      scan_image-private must_parse fnv_hex cfg params answers job conds pod text xs step d key img
            now complete made waits created running failing seen private no_end gone there delayed =
          let name = gen_job_name fnv_hex params.image_name in
          let fails = private_wait answers conds pod text xs running failing seen in
          let (err, result, h) =
            run_job-private params answers job name _ waits created fails
              (wrapped_private "scan job failed: " text private) in
          let parsed = private_parsed err h in
          (
            _,
            scan_image-run must_parse fnv_hex fmt_int poll cfg params answers job complete made,
            err,
            ground (arith, no_end, gone, result),
            parsed,
            λ t. end_scan_quiet step d key now _ img t there delayed (inr (inl (ap failed parsed))),
          )
