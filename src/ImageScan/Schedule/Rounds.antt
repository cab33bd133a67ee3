-- ===== src/ImageScan/Schedule/Rounds.antt =====
-- imagescan/controller.go: rounds of scans that all succeed come to an end.
use mathlib.Core.List.{Perm, mem-cons_self}
use mathlib.Core.List.Perm
use kvisor.Base.{
  ℕ, zero, suc, ◌≤◌, ◌<◌, pos, GoMap, AllEntries, values, List, [], ◌∷◌, ◌++◌, none, some, Bool,
  true, false, not, eq_str, length, keep, any-perm, All, All-perm, ◌==◌, ◌≡◌, refl, sym, subst,
  arith, Bool-cases, inl, inr, ◌⊎◌,
}
use kvisor.ImageScan.State.{Backoff, Image, DeltaState, get_images, node_count}
use kvisor.ImageScan.Select.{ScanConfig}
use kvisor.ImageScan.Schedule.{
  is_image_pending, fewer_failures, concurrent_scans_number, images_for_scan, start_scans,
}
use kvisor.ImageScan.Schedule.Round.{Ordered, Round, images_for_scan-Round}
use kvisor.ImageScan.Schedule.Pending.{
  AllNamed, Named, pending_of, count, succeed, succeed_all, succeed_all-AllNamed,
  succeed_all_not_more, succeed_less,
}

pending-Named :
    (now : ℕ) (m : GoMap Image)
    → AllEntries Named m
    → All (λ img. not (eq_str img.name "") ≡ true) (pending_of now (values m))
pending-Named now [] h = tt
pending-Named now ((k, img) ∷ m) h = ground (arith, h.0.1, pending-Named now m h.1)

start_all :
    (images left : List Image)
    → All (λ img. not (eq_str img.name "") ≡ true) (images ++ left)
    → start_scans images ≡ (images, false)
unfolding start_scans
start_all [] left h = refl
start_all (img ∷ images) left h = ground (arith, h.0, start_all images left h.1)

some_limit :
    (cfg : ScanConfig) (d : DeltaState) (n : ℕ)
    → cfg.max_concurrent_scans ≡ pos (suc n)
    → (m : ℕ) × (concurrent_scans_number cfg d ≡ pos (suc m))
unfolding concurrent_scans_number
some_limit cfg d n e = elim (Bool-cases (node_count d == 1)) [
  | inl one ↦ (0, ground (arith, one))
  | inr more ↦ (n, ground (arith, more, e))
]

none_left {ℓ} : {A : Type ℓ} (xs : List A) → length xs ≤ 0 → xs ≡ []
none_left [] h = refl
none_left (x ∷ xs) h = absurd (omega arith)

none_taken {ℓ} : {A : Type ℓ} (xs : List A) → Perm [] xs → length xs ≡ 0
none_taken [] same = refl
none_taken (x ∷ xs) same = let clash = any-perm (λ _. true) (x ∷ xs) [] same in cc

module _ (sort_slice : (Image → Image → Bool) → List Image → List Image)
    (sort_slice-perm : (less : Image → Image → Bool) (xs : List Image)
      → Perm (sort_slice less xs) xs)
    (sort_slice-Ordered : (xs : List Image) → Ordered (sort_slice fewer_failures xs))
    (step : Backoff → ℕ × Backoff) (cfg : ScanConfig) (now : ℕ) where
  -- A round of `scheduleScans` and `scanImages` in which all scans succeed.
  unfoldable pub scan_round : DeltaState → DeltaState
  unfolding images_for_scan start_scans
  scan_round d = elim (images_for_scan sort_slice cfg d now) [
    | none ↦ d
    | some images ↦ succeed_all step now d (start_scans images).0
  ]

  unfoldable pub scan_rounds : ℕ → DeltaState → DeltaState
  unfolding scan_round
  scan_rounds zero d = d
  scan_rounds (suc n) d = scan_rounds n (scan_round d)

  Round-less :
      (d : DeltaState) (m : ℕ) (images left : List Image)
      → AllNamed d
      → Round d now (suc m) images left
      → (count now (succeed_all step now d images).images < count now d.images)
        ⊎ (count now d.images ≡ 0)
  unfolding get_images
  Round-less d m [] left h r = inr (
      none_taken (pending_of now (values d.images))
        (subst (λ l. Perm l (pending_of now (values d.images))) (r.full (omega arith)) r.complete))
  Round-less d m (x ∷ images) left h r =
      let member = Perm.subset r.complete x mem-cons_self in
      inl (
        omega (
          arith,
          succeed_all_not_more step now images (succeed step now d x.key),
          succeed_less step now d x h member r.pending.0,
        ))

  -- What a round does, if the limit is not 0.
  Round-taken :
      (d : DeltaState) (m : ℕ)
      → AllNamed d
      → concurrent_scans_number cfg d ≡ pos (suc m)
      → (images : List Image) × (left : List Image) × Round d now (suc m) images left
        × (scan_round d ≡ succeed_all step now d images)
  unfolding scan_round get_images
  Round-taken d m h e =
      let (images, left, taken, r) =
        images_for_scan-Round sort_slice sort_slice-perm sort_slice-Ordered cfg d now (suc m) e in
      let named =
        All-perm (λ img. not (eq_str img.name "")) (pending_of now (values d.images))
          (images ++ left) r.complete (pending-Named now d.images h.1) in
      (images, left, r, rw (taken, scan_round, start_all images left named) refl)

  -- The scans of images come to an end: if all scans that are started succeed, then after as many
  -- rounds as there are pending images at a time, or more, no image is pending at that time. This
  -- holds if the configured number of concurrent scans is positive, each image stands under its
  -- own key and has a name, and `sort.Slice` permutes the images and puts none before one with
  -- fewer failures.
  pub scan_rounds_end :
      (fuel n : ℕ) (d : DeltaState)
      → cfg.max_concurrent_scans ≡ pos (suc n)
      → AllNamed d
      → length (keep (λ img. is_image_pending img now) (get_images d)) ≤ fuel
      → keep (λ img. is_image_pending img now) (get_images (scan_rounds fuel d)) ≡ []
  unfolding scan_rounds get_images
  scan_rounds_end zero n d limit h enough = none_left (pending_of now (values d.images)) enough
  scan_rounds_end (suc fuel) n d limit h enough =
      let (m, e) = some_limit cfg d n limit in
      let (images, left, r, same) = Round-taken d m h e in
      scan_rounds_end fuel n (scan_round d) limit
        (subst AllNamed (sym same) (succeed_all-AllNamed step now images d h))
        (subst (λ d'. count now d'.images ≤ fuel) (sym same)
          (fewer images (Round-less d m images left h r)))
    where
      fewer :
          (images : List Image)
          → (count now (succeed_all step now d images).images < count now d.images)
            ⊎ (count now d.images ≡ 0)
          → count now (succeed_all step now d images).images ≤ fuel
      fewer images (inl less) = omega (arith, enough)
      fewer images (inr none_pending) = omega (arith, succeed_all_not_more step now images d)
