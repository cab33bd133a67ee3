-- ===== src/ImageScan/Report/Statuses.antt =====
-- What `updateImageStatuses` reports, and when it has nothing more to report.
use mathlib.Core.List.{Mem, mem-cons_self, mem-cons_of_mem, mem-map_of_mem, not-mem-nil}
use kvisor.Base.{
  ℕ, ◌≤◌, ◌<◌, String, GoMap, lookup, lookup-insert_self, range_update, values, has, has-keys, ◌≡◌,
  refl, sym, subst, ap, ◌∙◌, List, [], ◌∷◌, none, some, Bool, true, All, keep, map, if◌then◌else◌,
  str_dec, arith, some_inj, Bool-cases, inl, inr,
}
use kvisor.Kube.Object.{Pod, ContainerStatus}
use kvisor.ImageScan.State.{Image, get_images}
use kvisor.ImageScan.State.Pods.{use_image, add_pod}
use kvisor.ImageScan.Report.{
  Controller, ImageChange, StatusRequest, image_change, is_reported, status_request, mark_reported,
  update_image_statuses,
}

-- A value of the map that passes the test is kept.
pub keep-lookup {ℓ} :
    {V : Type ℓ} (p : V → Bool) (k : String) (v : V) (m : GoMap V)
    → lookup k m ≡ some v
    → p v ≡ true
    → Mem v (keep p (values m))
unfolding lookup
keep-lookup p k v [] e t = cc
keep-lookup p k v ((j, w) ∷ m) e t = elim (str_dec j k) [
  | yes here ↦
      let same : w ≡ v = some_inj (ground (arith, e)) in
      rw (ap p same ∙ t) (subst (λ x. Mem x (w ∷ keep p (values m))) same mem-cons_self)
  | no there ↦ elim (Bool-cases (p w)) [
    | inl kept ↦ rw kept (mem-cons_of_mem w (keep-lookup p k v m (ground (arith, e, there)) t))
    | inr left ↦ rw left (keep-lookup p k v m (ground (arith, e, there)) t)
  ]
]

-- An image that is due for a report is in the request, with its present owners, and a request is
-- made.
pub status_request-Mem :
    (c : Controller) (now : ℕ) (k : String) (img : Image)
    → lookup k c.delta.images ≡ some img
    → is_reported c.full_snapshot_sent img ≡ true
    → (request : StatusRequest) × (status_request c now ≡ some request)
      × Mem (image_change now img) request.images
unfolding status_request get_images
status_request-Mem c now k img there due =
    go (keep (is_reported c.full_snapshot_sent) (values c.delta.images)) refl
      (keep-lookup (is_reported c.full_snapshot_sent) k img c.delta.images there due)
  where
    go :
        (images : List Image)
        → keep (is_reported c.full_snapshot_sent) (values c.delta.images) ≡ images
        → Mem img images
        → (request : StatusRequest) × (status_request c now ≡ some request)
          × Mem (image_change now img) request.images
    go [] e m = absurd (not-mem-nil m)
    go (x ∷ xs) e m = (
      record { full_snapshot = c.full_snapshot_sent; images = map (image_change now) (x ∷ xs) },
      rw (e, status_request) refl,
      mem-map_of_mem (image_change now) m,
    )

marked_not_due :
    (now : ℕ) (full_snapshot_sent : Bool) (m : GoMap Image)
    → All (λ img. img.owner_changed_at ≤ now) (values m)
    → keep (is_reported true) (
        values (
          range_update
            (λ _ img. some (
              if is_reported full_snapshot_sent img
              then record img { resources_updated_at = now }
              else img))
            m))
      ≡ []
unfolding is_reported range_update
marked_not_due now sent [] h = refl
marked_not_due now sent ((k, img) ∷ m) h = ground (arith, h.0, marked_not_due now sent m h.1)

-- Once a report of the images' statuses was delivered at a time that no owner change lies after,
-- there is nothing to report at any later time, if no image changed in between.
pub update_image_statuses_settles :
    (c : Controller) (now later : ℕ)
    → All (λ img. img.owner_changed_at ≤ now) (values c.delta.images)
    → status_request (update_image_statuses c now true) later ≡ none
unfolding status_request update_image_statuses mark_reported get_images
update_image_statuses_settles c now later h =
    go (keep (is_reported c.full_snapshot_sent) (values c.delta.images)) refl
  where
    go :
        (images : List Image)
        → keep (is_reported c.full_snapshot_sent) (values c.delta.images) ≡ images
        → status_request (update_image_statuses c now true) later ≡ none
    go [] e =
        let same : update_image_statuses c now true ≡ c =
          rw (e, update_image_statuses, status_request) refl in
        subst (λ x. status_request x later ≡ none) (sym same) (rw (e, status_request) refl)
    go (x ∷ xs) e =
        let same : update_image_statuses c now true ≡ record {
          delta = mark_reported c.full_snapshot_sent now c.delta;
          full_snapshot_sent = true;
        } =
          rw (e, update_image_statuses, status_request) refl in
        subst (λ x. status_request x later ≡ none) (sym same)
          (rw (marked_not_due now c.full_snapshot_sent c.delta.images h, status_request) refl)

-- When `upsertImages` has given an image an owner that it did not have, at a time after its last
-- report, then the next report, whenever it is made, has an entry with the image's ID that lists
-- the owner.
pub new_owner-reported :
    (c : Controller) (now later : ℕ) (k owner_id : String) (p : Pod) (cs : ContainerStatus)
    (img : Image)
    → lookup owner_id img.owners ≡ none
    → img.resources_updated_at < now
    → lookup k c.delta.images ≡ some (use_image img now p owner_id cs)
    → (request : StatusRequest) × (change : ImageChange) × (status_request c later ≡ some request)
      × Mem change request.images
      × (change.id ≡ cs.image_id)
      × (has owner_id change.resource_ids ≡ true)
unfolding use_image image_change is_reported add_pod
new_owner-reported c now later k owner_id p cs img new old there =
    let (request, made, listed) =
      status_request-Mem c later k (use_image img now p owner_id cs) there
        (elim (Bool-cases c.full_snapshot_sent) [
          | inl e ↦ ground (arith, e, new, old)
          | inr e ↦ ground (arith, e)
        ]) in
    (
      request,
      image_change later (use_image img now p owner_id cs),
      made,
      listed,
      refl,
      rw (has-keys owner_id (add_pod owner_id p.uid img.owners))
          (rw (new, add_pod) (rw (lookup-insert_self owner_id ((p.uid, tt) ∷ []) img.owners) refl)),
    )
