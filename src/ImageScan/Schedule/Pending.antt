-- ===== src/ImageScan/Schedule/Pending.antt =====
-- imagescan/controller.go: a scan that succeeds leaves fewer images pending.
use mathlib.Core.List.{Mem, eq-or-mem_of_mem-cons, not-mem-nil}
use mathlib.Core.Logic.Or
use mathlib.Core.HLevel.{⊥_prop}
use kvisor.Base.{
  ℕ, ◌≤◌, ◌<◌, String, GoMap, lookup, insert, IsMap, insert-IsMap, AllEntries, insert-AllEntries,
  lookup-AllEntries, values, List, [], ◌∷◌, none, some, true, false, if◌then◌else◌, eq_str, str_dec,
  length, keep, ◌≡◌, refl, sym, ap, ◌∙◌, subst, arith, Option-cases, Bool-cases, inl, inr, dec_lt,
}
use kvisor.ImageScan.State.{Backoff, Image, DeltaState}
use kvisor.ImageScan.Schedule.{is_image_pending, succeeded, update_image, end_scan}

-- Each image once, under its own key, and with a name.
abbrev pub Named : String → Image → Type 0
Named k img = (img.key ≡ k) × (eq_str img.name "" ≡ false)

abbrev pub AllNamed : DeltaState → Type 0
AllNamed d = IsMap d.images × AllEntries Named d.images

abbrev done : Image → Image
done img = record img { scanned = true }

module _ (now : ℕ) where
  abbrev pub pending_of : List Image → List Image
  pending_of = keep (λ img. is_image_pending img now)

  abbrev pub count : GoMap Image → ℕ
  count m = length (pending_of (values m))

  done-pending : (img : Image) → is_image_pending (done img) now ≡ false
  unfolding is_image_pending
  done-pending img = refl

  pub count_not_more :
      (k : String) (img : Image) (m : GoMap Image)
      → lookup k m ≡ some img
      → count (insert k (done img) m) ≤ count m
  unfolding lookup insert
  count_not_more k img [] e = cc
  count_not_more k img ((j, w) ∷ m) e = ground (arith, e, done-pending img, count_not_more k img m)

  pub count_less :
      (k : String) (img : Image) (m : GoMap Image)
      → lookup k m ≡ some img
      → is_image_pending img now ≡ true
      → count (insert k (done img) m) < count m
  unfolding lookup insert
  count_less k img [] e p = cc
  count_less k img ((j, w) ∷ m) e p = elim (str_dec j k) [
    | yes here ↦
        let same : w ≡ img = ground arith in
        ground (arith, here, ap (λ i. is_image_pending i now) same, p, done-pending img)
    | no there ↦ ground (arith, there, e, p, count_less k img m)
  ]

  found_deeper :
      (j k : String) (w x : Image) (m : GoMap Image)
      → lookup k m ≡ none
      → lookup j m ≡ some x
      → lookup j ((k, w) ∷ m) ≡ some x
  unfolding lookup
  found_deeper j k w x m fresh found = elim (str_dec k j) [
    | yes here ↦ let clash = sym fresh ∙ ap (λ i. lookup i m) here ∙ found in cc
    | no there ↦ ground (arith, there, found)
  ]

  -- A pending image is found under its key.
  pub pending_found :
      (x : Image) (m : GoMap Image)
      → IsMap m
      → AllEntries Named m
      → Mem x (pending_of (values m))
      → ¬ ¬ (lookup x.key m ≡ some x)
  unfolding lookup
  pending_found x [] h named member missing = not-mem-nil member
  pending_found x ((k, w) ∷ m) h named member missing =
      let deeper : (Mem x (pending_of (values m)) → ⊥) = λ there.
        pending_found x m h.1 named.1 there
          (λ found. missing (found_deeper x.key k w x m h.0 found)) in
      elim (Bool-cases (is_image_pending w now)) [
        | inl p ↦
            Or.elim ⊥_prop
              (eq-or-mem_of_mem-cons (
                subst (λ b. Mem x (if b then w ∷ pending_of (values m) else pending_of (values m)))
                  p member))
              (λ same. missing (ground (arith, named.0.0, ap (λ (i : Image). i.key) same, same)))
              deeper
        | inr q ↦ deeper (
            subst (λ b. Mem x (if b then w ∷ pending_of (values m) else pending_of (values m))) q
              member)
      ]

module _ (step : Backoff → ℕ × Backoff) (now : ℕ) where
  -- The end of a scan that succeeds.
  abbrev pub succeed : DeltaState → String → DeltaState
  succeed d key = end_scan step d now key succeeded

  succeed-AllNamed : (d : DeltaState) (key : String) → AllNamed d → AllNamed (succeed d key)
  unfolding end_scan update_image
  succeed-AllNamed d key h = elim (Option-cases (lookup key d.images)) [
    | inl gone ↦ rw (gone, update_image) h
    | inr (img, there) ↦
        rw (there, update_image)
          (
            insert-IsMap key (done img) d.images h.0,
            insert-AllEntries Named key (done img) d.images
                (lookup-AllEntries Named key img d.images h.1 there) h.1,
          )
  ]

  succeed_not_more :
      (d : DeltaState) (key : String) → count now (succeed d key).images ≤ count now d.images
  unfolding end_scan update_image
  succeed_not_more d key = elim (Option-cases (lookup key d.images)) [
    | inl gone ↦ rw (gone, update_image) (omega arith)
    | inr (img, there) ↦ rw (there, update_image) (count_not_more now key img d.images there)
  ]

  pub succeed_less :
      (d : DeltaState) (x : Image)
      → AllNamed d
      → Mem x (pending_of now (values d.images))
      → is_image_pending x now ≡ true
      → count now (succeed d x.key).images < count now d.images
  unfolding end_scan update_image
  succeed_less d x h member p =
      elim (dec_lt (count now (succeed d x.key).images) (count now d.images)) [
        | yes less ↦ less
        | no more ↦ absurd (
            pending_found now x d.images h.0 h.1 member
              (λ found. more (rw (found, update_image) (count_less now x.key x d.images found p))))
      ]

  -- The ends of all scans of a round.
  abbrev pub succeed_all : DeltaState → List Image → DeltaState
  succeed_all d [] = d
  succeed_all d (img ∷ images) = succeed_all (succeed d img.key) images

  pub succeed_all-AllNamed :
      (images : List Image) (d : DeltaState) → AllNamed d → AllNamed (succeed_all d images)
  succeed_all-AllNamed [] d h = h
  succeed_all-AllNamed (img ∷ images) d h =
      succeed_all-AllNamed images (succeed d img.key) (succeed-AllNamed d img.key h)

  pub succeed_all_not_more :
      (images : List Image) (d : DeltaState)
      → count now (succeed_all d images).images ≤ count now d.images
  succeed_all_not_more [] d = omega arith
  succeed_all_not_more (img ∷ images) d =
      omega (arith, succeed_all_not_more images (succeed d img.key), succeed_not_more d img.key)
