-- ===== src/Samples/ScanRuns/Sorting.antt =====
-- Sorting by insertion, which does what the code relies on `sort.Slice` for.
use mathlib.Core.List.{Perm}
use mathlib.Core.List.Perm
use kvisor.Base.{List, [], ◌∷◌, Bool, false, ◌≡◌, if◌then◌else◌, All, arith, Bool-cases, inl, inr}
use kvisor.ImageScan.State.{Image}
use kvisor.ImageScan.Schedule.{fewer_failures}
use kvisor.ImageScan.Schedule.Round.{Ordered}

abbrev place {ℓ} : {A : Type ℓ} → (A → A → Bool) → A → List A → List A
place less x [] = x ∷ []
place less x (y ∷ ys) = let rest = place less x ys in if less y x then y ∷ rest else x ∷ y ∷ ys

abbrev pub sorted {ℓ} : {A : Type ℓ} → (A → A → Bool) → List A → List A
sorted less [] = []
sorted less (x ∷ xs) = place less x (sorted less xs)

place-perm {ℓ} :
    {A : Type ℓ} (less : A → A → Bool) (x : A) (xs : List A) → Perm (place less x xs) (x ∷ xs)
place-perm less x [] = Perm.refl (x ∷ [])
place-perm less x (y ∷ ys) = elim (Bool-cases (less y x)) [
  | inl before ↦ rw before (Perm.trans (Perm.cons y (place-perm less x ys)) (Perm.swap x y ys))
  | inr after ↦ rw after (Perm.refl (x ∷ y ∷ ys))
]

pub sorted-perm {ℓ} : {A : Type ℓ} (less : A → A → Bool) (xs : List A) → Perm (sorted less xs) xs
sorted-perm less [] = Perm.refl []
sorted-perm less (x ∷ xs) =
    Perm.trans (place-perm less x (sorted less xs)) (Perm.cons x (sorted-perm less xs))

-- The elements have at least as many failures as `x`, and so as many as one with no more than `x`.
All-fewer :
    (x y : Image) (xs : List Image)
    → fewer_failures y x ≡ false
    → All (λ z. fewer_failures z y ≡ false) xs
    → All (λ z. fewer_failures z x ≡ false) xs
All-fewer x y [] e h = tt
All-fewer x y (z ∷ zs) e h = (ground (arith, e, h.0), All-fewer x y zs e h.1)

All-place :
    (x y : Image) (xs : List Image)
    → fewer_failures x y ≡ false
    → All (λ z. fewer_failures z y ≡ false) xs
    → All (λ z. fewer_failures z y ≡ false) (place fewer_failures x xs)
All-place x y [] e h = (e, tt)
All-place x y (z ∷ zs) e h = elim (Bool-cases (fewer_failures z x)) [
  | inl before ↦ rw before (h.0, All-place x y zs e h.1)
  | inr after ↦ rw after (e, h)
]

place-Ordered : (x : Image) (xs : List Image) → Ordered xs → Ordered (place fewer_failures x xs)
place-Ordered x [] h = (tt, tt)
place-Ordered x (y ∷ ys) h = elim (Bool-cases (fewer_failures y x)) [
  | inl before ↦ rw before (All-place x y ys (ground (arith, before)) h.0, place-Ordered x ys h.1)
  | inr after ↦ rw after ((after, All-fewer x y ys after h.0), h)
]

pub sorted-Ordered : (xs : List Image) → Ordered (sorted fewer_failures xs)
sorted-Ordered [] = tt
sorted-Ordered (x ∷ xs) = place-Ordered x (sorted fewer_failures xs) (sorted-Ordered xs)
