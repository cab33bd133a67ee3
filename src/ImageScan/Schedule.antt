-- ===== src/ImageScan/Schedule.antt =====
-- imagescan/controller.go: which images are scanned in a round (`findPendingImages`,
-- `concurrentScansNumber`, `scheduleScans`) and what the end of a scan does to the state
-- (`scanImages`, with `setImageScanError` and `updateImage` of imagescan/delta.go). Scans end in
-- any order: each end is a step of its own.
pub mod Round
pub mod Ends
pub mod Pending
pub mod Rounds
use kvisor.Base.{
  ℕ, ◌+◌, suc, ℤ, pos, negsuc, String, lookup, insert, List, [], ◌∷◌, Option, none, some, Bool,
  true, false, not, ◌&&◌, ◌||◌, if◌then◌else◌, eq_str, length, take, keep, ◌==◌, ltb,
}
use kvisor.ImageScan.State.{
  ScanError, private_image, Backoff, Image, DeltaState, get_images, node_count,
}
use kvisor.ImageScan.Select.{ScanConfig}

unfoldable pub is_image_private : Image → Bool
is_image_private img = elim img.last_scan_err [
  | none ↦ false
  | some err ↦ elim err [ private_image ↦ true | _ ↦ false ]
]

unfoldable pub is_image_pending : Image → ℕ → Bool
unfolding is_image_private
is_image_pending img now =
    not img.scanned
    && ltb 0 (length img.owners)
    && not (is_image_private img)
    && (img.next_scan == 0 || ltb img.next_scan now)

abbrev pub fewer_failures : Image → Image → Bool
fewer_failures a b = ltb a.failures b.failures

-- `sort_slice` is `sort.Slice`.
unfoldable pub find_pending_images :
    ((Image → Image → Bool) → List Image → List Image) → DeltaState → ℕ → List Image
unfolding get_images
find_pending_images sort_slice d now =
    sort_slice fewer_failures (keep (λ img. is_image_pending img now) (get_images d))

unfoldable pub concurrent_scans_number : ScanConfig → DeltaState → ℤ
unfolding node_count
concurrent_scans_number cfg d = if node_count d == 1 then pos 1 else cfg.max_concurrent_scans

-- The slicing in `scheduleScans`; `none` is the panic at a negative bound.
unfoldable pub limit_scans : ℤ → List Image → Option (List Image)
limit_scans (pos n) images = some (take n images)
limit_scans (negsuc n) images = none

unfoldable pub images_for_scan :
    ((Image → Image → Bool) → List Image → List Image)
    → ScanConfig
    → DeltaState
    → ℕ
    → Option (List Image)
unfolding find_pending_images concurrent_scans_number limit_scans
images_for_scan sort_slice cfg d now =
    limit_scans (concurrent_scans_number cfg d) (find_pending_images sort_slice d now)

-- The loop of `scanImages`: the scans that are started, and whether an image without a name stopped
-- the loop.
unfoldable pub start_scans : List Image → List Image × Bool
start_scans [] = ([], false)
start_scans (img ∷ images) =
    let (started, stopped) = start_scans images in
    if eq_str img.name "" then ([], true) else (img ∷ started, stopped)

-- How a started scan ends: it is given up since the context is done, it succeeds, or it fails.
pub data ScanEnd : Type 0 where
  given_up succeeded : ScanEnd
  failed : ScanError → ScanEnd

-- `updateImage`.
unfoldable pub update_image : DeltaState → String → (Image → Image) → DeltaState
update_image d key change = elim (lookup key d.images) [
  | none ↦ d
  | some img ↦ record d { images = insert key (change img) d.images }
]

-- `step` is `Backoff.Step`: the delay, and the next state of the backoff.
module _ (step : Backoff → ℕ × Backoff) where
  -- The changes of `setImageScanError` to the image.
  unfoldable pub record_failure : ℕ → ScanError → Image → Image
  record_failure now err img = record img {
    failures = suc img.failures;
    last_scan_err = some err;
    next_scan = now + (step img.retry_backoff).0;
    retry_backoff = (step img.retry_backoff).1;
  }

  unfoldable pub set_image_scan_error : DeltaState → ℕ → String → ScanError → DeltaState
  unfolding record_failure update_image
  set_image_scan_error d now key err = update_image d key (record_failure now err)

  -- The end of a scan, at a time, of the image under a key.
  unfoldable pub end_scan : DeltaState → ℕ → String → ScanEnd → DeltaState
  unfolding set_image_scan_error update_image
  end_scan d now key given_up = d
  end_scan d now key succeeded = update_image d key (λ img. record img { scanned = true })
  end_scan d now key (failed err) = set_image_scan_error d now key err
