-- ===== src/ImageScan/Http/Pages.antt =====
-- What the debug pages show.
use mathlib.Core.List.{Perm}
use kvisor.Base.{
  ℕ, suc, ◌≤◌, GoMap, values, length, length-append, length-take-le, take, List, [], ◌∷◌, map, none,
  some, Bool, true, ltb, leb, All, All-perm, ◌≡◌, refl, sym, ap, ◌∙◌, arith, Bool-cases, inl, inr,
}
use kvisor.ImageScan.State.{ScanError, Image, DeltaState, get_images}
use kvisor.ImageScan.Http.{ImageRow, max_err_str, shorten, image_row, images_page}

-- A row whose error fits the page.
abbrev pub fits : ImageRow → Bool
fits row = leb (length row.scan_err) 203

shorten-le : (text : List ℕ) → length (shorten text) ≤ 203
unfolding shorten
shorten-le text = elim (Bool-cases (ltb max_err_str (length text))) [
  | inl long ↦
      rw (long, shorten)
        (omega (
          arith,
          length-append (take max_err_str text) (46 ∷ 46 ∷ 46 ∷ []),
          length-take-le max_err_str text,
        ))
  | inr short ↦ rw (short, shorten) (ground (arith, short))
]

leb_small : (n : ℕ) → n ≤ 203 → leb n 203 ≡ true
leb_small n h = ground (arith, h)

module _ (error_text : ScanError → List ℕ) where
  rows-fit :
      (images : List Image) → All (λ row. fits row ≡ true) (map (image_row error_text) images)
  unfolding image_row
  rows-fit [] = tt
  rows-fit (img ∷ images) = (
    leb_small _ (
        shorten-le
          (elim img.last_scan_err as (λ _. List ℕ) [ none ↦ [] | some err ↦ error_text err ])),
    rows-fit images,
  )

  length-values : {V : Type 0} (m : GoMap V) → length (values m) ≡ length m
  length-values [] = refl
  length-values ((k, v) ∷ m) = ap suc (length-values m)

  length-rows : (images : List Image) → length (map (image_row error_text) images) ≡ length images
  length-rows [] = refl
  length-rows (img ∷ images) = ap suc (length-rows images)

  -- The page of images has one row for each image of the state, in some order, and counts as many; no
  -- row's error is longer than 203 bytes, however long the error was. This holds if `sort.Slice` permutes
  -- the rows.
  pub images_page-fits :
      (sort_by_name : List ImageRow → List ImageRow)
      → ((rows : List ImageRow) → Perm (sort_by_name rows) rows)
      → (d : DeltaState)
      → Perm
          (images_page error_text sort_by_name d).images
          (map (image_row error_text) (get_images d))
        × ((images_page error_text sort_by_name d).images_count
            ≡ length (map (image_row error_text) (get_images d)))
        × All (λ row. fits row ≡ true) (images_page error_text sort_by_name d).images
  unfolding images_page get_images
  images_page-fits sort_by_name permutes d =
      let rows = map (image_row error_text) (values d.images) in
      (
        permutes rows,
        sym (length-rows (values d.images) ∙ length-values d.images),
        All-perm fits rows (sort_by_name rows) (permutes rows) (rows-fit (values d.images)),
      )
