-- ===== src/ImageScan/Schedule/Round.antt =====
-- Which images a round of scans takes.
use mathlib.Core.List.{Perm}
use kvisor.Base.{
  ℕ, zero, suc, ◌≤◌, ◌<◌, ap, All-perm, pos, List, [], ◌∷◌, ◌++◌, some, Bool, true, false, ◌≡◌,
  refl, length, take, keep, All, All-keep, All-take, length-take-le, arith,
}
use kvisor.ImageScan.State.{Image, DeltaState, get_images}
use kvisor.ImageScan.Select.{ScanConfig}
use kvisor.ImageScan.Schedule.{
  is_image_pending, fewer_failures, find_pending_images, concurrent_scans_number, limit_scans,
  images_for_scan,
}

-- No element has fewer failures than one before it.
abbrev pub Ordered : List Image → Type 0
Ordered [] = Unit
Ordered (x ∷ xs) = All (λ y. fewer_failures y x ≡ false) xs × Ordered xs

abbrev pub rest {ℓ} : {A : Type ℓ} → ℕ → List A → List A
rest zero xs = xs
rest (suc n) [] = []
rest (suc n) (x ∷ xs) = rest n xs

All-rest {ℓ κ} : {A : Type ℓ} (P : A → Type κ) (n : ℕ) (xs : List A) → All P xs → All P (rest n xs)
All-rest P zero xs h = h
All-rest P (suc n) [] h = tt
All-rest P (suc n) (x ∷ xs) h = All-rest P n xs h.1

take_before_rest :
    (n : ℕ) (xs : List Image)
    → Ordered xs
    → All (λ x. All (λ y. fewer_failures y x ≡ false) (rest n xs)) (take n xs)
take_before_rest zero xs h = tt
take_before_rest (suc n) [] h = tt
take_before_rest (suc n) (x ∷ xs) h = (All-rest _ n xs h.0, take_before_rest n xs h.1)

take-rest {ℓ} : {A : Type ℓ} (n : ℕ) (xs : List A) → take n xs ++ rest n xs ≡ xs
take-rest zero xs = refl
take-rest (suc n) [] = refl
take-rest (suc n) (x ∷ xs) = ap (λ ys. x ∷ ys) (take-rest n xs)

rest_if_short {ℓ} : {A : Type ℓ} (n : ℕ) (xs : List A) → length (take n xs) < n → rest n xs ≡ []
rest_if_short zero xs h = ground arith
rest_if_short (suc n) [] h = refl
rest_if_short (suc n) (x ∷ xs) h = rest_if_short n xs (omega arith)

-- The images of a round and those that are left for later make up the pending images; none that
-- is left has fewer failures than one that is taken; and some are left only if the limit is reached.
pub record Round (d : DeltaState) (now : ℕ) (n : ℕ) (images left : List Image) : Type 0 where
  pub pending : All (λ img. is_image_pending img now ≡ true) images
  pub complete : Perm (images ++ left) (keep (λ img. is_image_pending img now) (get_images d))
  pub fair : All (λ x. All (λ y. fewer_failures y x ≡ false) left) images
  pub limited : length images ≤ n
  pub full : length images < n → left ≡ []

module _ (sort_slice : (Image → Image → Bool) → List Image → List Image)
    (sort_slice-perm : (less : Image → Image → Bool) (xs : List Image)
      → Perm (sort_slice less xs) xs)
    (sort_slice-Ordered : (xs : List Image) → Ordered (sort_slice fewer_failures xs)) where
  -- If the limit on concurrent scans is not negative, `scheduleScans` takes images for a round, and
  -- does not panic: they are pending, at most as many as the limit, no image that is left over has
  -- had fewer failures than one that is taken, and a pending image is left over only if the limit
  -- is reached. This holds if `sort.Slice` permutes the images and puts none before one with fewer
  -- failures.
  pub images_for_scan-Round :
      (cfg : ScanConfig) (d : DeltaState) (now n : ℕ)
      → concurrent_scans_number cfg d ≡ pos n
      → (images : List Image) × (left : List Image) × (images_for_scan sort_slice cfg d now
          ≡ some images)
        × Round d now n images left
  unfolding images_for_scan limit_scans find_pending_images
  images_for_scan-Round cfg d now n e = (
    take n pending,
    rest n pending,
    rw (e, limit_scans) refl,
    record {
      pending = All-take _ n pending (
          All-perm (λ img. is_image_pending img now) _ pending
            (sort_slice-perm fewer_failures (keep (λ img. is_image_pending img now) (get_images d)))
            (All-keep (λ img. is_image_pending img now) (get_images d)));
      complete = rw (take-rest n pending) (sort_slice-perm fewer_failures _);
      fair = take_before_rest n pending (sort_slice-Ordered _);
      limited = length-take-le n pending;
      full = rest_if_short n pending;
    },
  )
    where
      pending : List Image
      pending = sort_slice fewer_failures (keep (λ img. is_image_pending img now) (get_images d))
