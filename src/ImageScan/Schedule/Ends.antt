-- ===== src/ImageScan/Schedule/Ends.antt =====
-- What the end of a scan leaves behind, and that scans may end in any order.
use kvisor.Base.{
  ℕ, ◌+◌, ◌≤◌, ◌<◌, String, lookup, lookup-insert, insert-IsMap, insert-AllEntries,
  lookup-AllEntries, ◌≡◌, ◌≢◌, refl, Option, none, some, true, false, ite, str_dec, arith,
  Option-cases, inl, inr, ◌⊎◌,
}
use kvisor.ImageScan.State.{ScanError, private_image, Backoff, Image, DeltaState}
use kvisor.ImageScan.State.Invariant.{Inv, ImageInv}
use kvisor.ImageScan.Schedule.{
  is_image_private, is_image_pending, ScanEnd, given_up, succeeded, failed, update_image,
  record_failure, set_image_scan_error, end_scan,
}

module _ (step : Backoff → ℕ × Backoff) where
  -- What an end of a scan does to the image, if it is still there.
  abbrev pub ended : ℕ → ScanEnd → Image → Image
  ended now given_up img = img
  ended now succeeded img = record img { scanned = true }
  ended now (failed err) img = record_failure step now err img

  lookup-update_image :
      (k key : String) (change : Image → Image) (d : DeltaState)
      → lookup k (update_image d key change).images
        ≡ ite
            (str_dec key k)
            (elim (lookup k d.images) as (λ _. Option Image) [
              | none ↦ none
              | some img ↦ some (change img)
            ])
            (lookup k d.images)
  unfolding update_image
  lookup-update_image k key change d = elim (Option-cases (lookup key d.images)) [
    | inl gone ↦ ground (arith, gone)
    | inr (img, there) ↦
        rw (there, update_image) (ground (arith, there, lookup-insert key k (change img) d.images))
  ]

  keep_if {κ} :
      {P : Type κ} (c : Dec P) (o : Option Image)
      → o ≡ ite c (elim o as (λ _. Option Image) [ none ↦ none | some img ↦ some img ]) o
  keep_if (yes _) none = refl
  keep_if (yes _) (some img) = refl
  keep_if (no _) o = refl

  pub lookup-end_scan :
      (k key : String) (now : ℕ) (e : ScanEnd) (d : DeltaState)
      → lookup k (end_scan step d now key e).images
        ≡ ite
            (str_dec key k)
            (elim (lookup k d.images) as (λ _. Option Image) [
              | none ↦ none
              | some img ↦ some (ended now e img)
            ])
            (lookup k d.images)
  unfolding end_scan set_image_scan_error
  lookup-end_scan k key now given_up d = keep_if (str_dec key k) (lookup k d.images)
  lookup-end_scan k key now succeeded d = lookup-update_image k key _ d
  lookup-end_scan k key now (failed err) d = lookup-update_image k key _ d

  -- Two scans of different images may end in either order: every image is left the same.
  pub end_scan_comm :
      (d : DeltaState) (i j k : String) (s t : ℕ) (e f : ScanEnd)
      → i ≢ j
      → lookup k (end_scan step (end_scan step d s i e) t j f).images
        ≡ lookup k (end_scan step (end_scan step d t j f) s i e).images
  end_scan_comm d i j k s t e f h = ground (
    arith,
    h,
    lookup-end_scan k j t f (end_scan step d s i e),
    lookup-end_scan k i s e d,
    lookup-end_scan k i s e (end_scan step d t j f),
    lookup-end_scan k j t f d,
  )

  -- After a scan of an image that is there succeeded, the image is not pending at any time; after
  -- it failed since the image is private, neither; after any other failure the image is not
  -- pending until the delay of its backoff, which must not be 0, has passed.
  pub end_scan_quiet :
      (d : DeltaState) (key : String) (now : ℕ) (e : ScanEnd) (img : Image) (t : ℕ)
      → lookup key d.images ≡ some img
      → 0 < (step img.retry_backoff).0
      → (e ≡ succeeded)
        ⊎ (e ≡ failed private_image)
        ⊎ ((err : ScanError) × (e ≡ failed err) × (t ≤ now + (step img.retry_backoff).0))
      → (img' : Image) × (lookup key (end_scan step d now key e).images ≡ some img')
        × (is_image_pending img' t ≡ false)
  unfolding is_image_pending is_image_private record_failure
  end_scan_quiet d key now e img t there delayed h =
      (ended now e img, ground (arith, there, lookup-end_scan key key now e d), quiet h)
    where
      quiet :
          (e ≡ succeeded)
            ⊎ (e ≡ failed private_image)
            ⊎ ((err : ScanError) × (e ≡ failed err) × (t ≤ now + (step img.retry_backoff).0))
          → is_image_pending (ended now e img) t ≡ false
      quiet (inl ok) = rw ok refl
      quiet (inr (inl private)) = ground (arith, private)
      quiet (inr (inr (err, failure, early))) = ground (arith, failure, early, delayed)

update_image-Inv :
    (d : DeltaState) (key : String) (change : Image → Image)
    → ((k : String) (img : Image) → ImageInv k img → ImageInv k (change img))
    → Inv d
    → Inv (update_image d key change)
unfolding update_image
update_image-Inv d key change ok h = elim (Option-cases (lookup key d.images)) [
  | inl gone ↦ rw (gone, update_image) h
  | inr (img, there) ↦
      rw (there, update_image)
        (record {
          images_map = insert-IsMap key (change img) d.images h.images_map;
          images_good =
              insert-AllEntries ImageInv key (change img) d.images
                (ok key img (lookup-AllEntries ImageInv key img d.images h.images_good there))
                h.images_good;
          nodes_map = h.nodes_map;
          nodes_good = h.nodes_good;
        })
]

-- However a scan ends, the state of images and nodes stays well formed.
pub end_scan-Inv :
    (step : Backoff → ℕ × Backoff) (d : DeltaState) (now : ℕ) (key : String) (e : ScanEnd)
    → Inv d
    → Inv (end_scan step d now key e)
unfolding end_scan set_image_scan_error record_failure
end_scan-Inv step d now key given_up h = h
end_scan-Inv step d now key succeeded h =
    update_image-Inv d key _
      (λ k img v. record {
        keyed = v.keyed;
        owners_map = v.owners_map;
        owners_busy = v.owners_busy;
        nodes_map = v.nodes_map;
        used = v.used;
      })
      h
end_scan-Inv step d now key (failed err) h =
    update_image-Inv d key _
      (λ k img v. record {
        keyed = v.keyed;
        owners_map = v.owners_map;
        owners_busy = v.owners_busy;
        nodes_map = v.nodes_map;
        used = v.used;
      })
      h
