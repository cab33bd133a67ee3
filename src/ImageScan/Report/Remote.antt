-- ===== src/ImageScan/Report/Remote.antt =====
-- What the server's answer changes.
use mathlib.Core.List.{Mem}
use kvisor.Base.{
  ℕ, ◌+◌, ◌≤◌, String, IsMap, lookup, lookup-range_update, range_update-IsMap, ◌≡◌, ◌≢◌, refl, sym,
  subst, ap, ◌∙◌, List, [], ◌∷◌, Option, none, some, Bool, true, false, ◌&&◌, ◌||◌, any,
  if◌then◌else◌, eq_str, arith, Bool-cases, inl, inr,
}
use kvisor.ImageScan.State.{Image, DeltaState}
use kvisor.ImageScan.State.Invariant.{Inv}
use kvisor.ImageScan.Report.{
  Controller, ScannedImage, SyncState, images_state, is_not_synced, sync_filter, mark_synced,
  set_image_scanned, set_images_scanned, apply_sync_state, sync_from_remote_state, sync_interval,
  status_request, StatusRequest, image_change, is_reported,
}
use kvisor.ImageScan.Report.Statuses.{status_request-Mem}

-- Whether the server names the image among the scanned ones.
abbrev pub is_named : List ScannedImage → Image → Bool
is_named scanned_images img =
    any (λ s. eq_str img.id s.id && eq_str img.architecture s.architecture) scanned_images

-- What an answer makes of an image.
abbrev pub synced : ℕ → List ScannedImage → Image → Image
synced now scanned_images img = record img {
  scanned = img.scanned || is_named scanned_images img;
  last_remote_sync_at = if is_not_synced now img then now else img.last_remote_sync_at;
}

abbrev change {ℓ} : {A : Type ℓ} → (A → A) → Option A → Option A
change f none = none
change f (some v) = some (f v)

or_false : (b : Bool) → b ≡ b || false
or_false true = refl
or_false false = refl

true_or : (b : Bool) → true ≡ b || true
true_or true = refl
true_or false = refl

unnamed : (o : Option Image) → o ≡ change (λ img. record img { scanned = img.scanned || false }) o
unnamed none = refl
unnamed (some img) = ap (λ b. some (record img { scanned = b })) (or_false img.scanned)

-- The body of the loop in `setImageScanned`.
abbrev mark_named : ScannedImage → String → Image → Option Image
mark_named s k img = some (
    if eq_str img.id s.id && eq_str img.architecture s.architecture
    then record img { scanned = true }
    else img)

named :
    (s : ScannedImage) (scanned_images : List ScannedImage) (k : String) (o : Option Image)
    → change
        (λ img. record img { scanned = img.scanned || is_named scanned_images img })
        (elim o as (λ _. Option Image) [ none ↦ none | some v ↦ mark_named s k v ])
      ≡ change (λ img. record img { scanned = img.scanned || is_named (s ∷ scanned_images) img }) o
named s scanned_images k none = refl
named s scanned_images k (some img) =
    elim (Bool-cases (eq_str img.id s.id && eq_str img.architecture s.architecture)) [
      | inl hit ↦ rw hit (ap (λ b. some (record img { scanned = b })) (true_or img.scanned))
      | inr miss ↦ rw miss refl
    ]

lookup-set_images_scanned :
    (k : String) (scanned_images : List ScannedImage) (d : DeltaState)
    → IsMap d.images
    → lookup k (set_images_scanned d scanned_images).images
      ≡ change
          (λ img. record img { scanned = img.scanned || is_named scanned_images img })
          (lookup k d.images)
unfolding set_images_scanned set_image_scanned
lookup-set_images_scanned k [] d h = unnamed (lookup k d.images)
lookup-set_images_scanned k (s ∷ scanned_images) d h =
    lookup-set_images_scanned k scanned_images (set_image_scanned d s)
      (range_update-IsMap (mark_named s) d.images h)
    ∙ ap (change (λ img. record img { scanned = img.scanned || is_named scanned_images img }))
        (lookup-range_update (mark_named s) k d.images h)
    ∙ named s scanned_images k (lookup k d.images)

-- The body of the loop that marks the images as synced.
abbrev mark_asked : ℕ → String → Image → Option Image
mark_asked now k img =
    some (if is_not_synced now img then record img { last_remote_sync_at = now } else img)

asked :
    (now : ℕ) (scanned_images : List ScannedImage) (k : String) (o : Option Image)
    → change
        (λ img. record img { scanned = img.scanned || is_named scanned_images img })
        (elim o as (λ _. Option Image) [ none ↦ none | some v ↦ mark_asked now k v ])
      ≡ change (synced now scanned_images) o
asked now scanned_images k none = refl
asked now scanned_images k (some img) = elim (Bool-cases (is_not_synced now img)) [
  | inl out_of_date ↦ rw out_of_date refl
  | inr up_to_date ↦ rw up_to_date refl
]

lookup-apply_sync_state :
    (k : String) (c : Controller) (now : ℕ) (state : SyncState)
    → IsMap c.delta.images
    → lookup k (apply_sync_state c now state).delta.images
      ≡ change (synced now state.scanned_images) (lookup k c.delta.images)
unfolding apply_sync_state mark_synced
lookup-apply_sync_state k c now state h =
    lookup-set_images_scanned k state.scanned_images (mark_synced now c.delta)
      (range_update-IsMap (mark_asked now) c.delta.images h)
    ∙ ap (change (λ img. record img { scanned = img.scanned || is_named state.scanned_images img }))
        (lookup-range_update (mark_asked now) k c.delta.images h)
    ∙ asked now state.scanned_images k (lookup k c.delta.images)

sync-applied :
    (c : Controller) (now : ℕ) (state : SyncState)
    → sync_filter c.delta now ≢ []
    → sync_from_remote_state c now (images_state state) ≡ apply_sync_state c now state
unfolding sync_from_remote_state
sync-applied c now state some_asked = go (sync_filter c.delta now) refl
  where
    go :
        (asked_ids : List String)
        → sync_filter c.delta now ≡ asked_ids
        → sync_from_remote_state c now (images_state state) ≡ apply_sync_state c now state
    go [] e = absurd (some_asked e)
    go (x ∷ xs) e = rw (e, sync_from_remote_state) refl

-- In a well-formed state, at the server's answer to a request that names some images: an image is
-- scanned afterwards exactly if it was scanned or the server names it, with its ID and
-- architecture; and an image that would be asked about again within the ten minutes that follow
-- was not asked about this time.
pub sync_from_remote_state-cases :
    (c : Controller) (now later : ℕ) (state : SyncState) (k : String) (img : Image)
    → Inv c.delta
    → sync_filter c.delta now ≢ []
    → later ≤ now + sync_interval
    → lookup k c.delta.images ≡ some img
    → (img' : Image) × (lookup k (sync_from_remote_state c now (images_state state)).delta.images
        ≡ some img')
      × (img'.scanned ≡ img.scanned || is_named state.scanned_images img)
      × (is_not_synced later img' ≡ true → is_not_synced now img ≡ false)
unfolding is_not_synced
sync_from_remote_state-cases c now later state k img good some_asked soon there = (
  synced now state.scanned_images img,
  subst (λ x. lookup k x.delta.images ≡ some (synced now state.scanned_images img))
      (sym (sync-applied c now state some_asked))
      (lookup-apply_sync_state k c now state good.images_map ∙ ap (change _) there),
  refl,
  λ again. ground (arith, soon, again),
)

-- In a well-formed state, if the server, asked about some images, requires a full resync, then the
-- next report, whenever it is made, lists every image, as the answer left it.
pub full_resync-reports :
    (c : Controller) (now later : ℕ) (state : SyncState) (k : String) (img : Image)
    → Inv c.delta
    → sync_filter c.delta now ≢ []
    → state.full_resources_resync_required ≡ true
    → lookup k c.delta.images ≡ some img
    → (request : StatusRequest) × (status_request
          (sync_from_remote_state c now (images_state state))
          later
        ≡ some request)
      × Mem (image_change later (synced now state.scanned_images img)) request.images
unfolding apply_sync_state is_reported
full_resync-reports c now later state k img good some_asked full there =
    subst
      (λ x.
        (request : StatusRequest) × (status_request x later ≡ some request)
        × Mem (image_change later (synced now state.scanned_images img)) request.images)
      (sym (sync-applied c now state some_asked))
      (status_request-Mem (apply_sync_state c now state) later k
        (synced now state.scanned_images img)
        (lookup-apply_sync_state k c now state good.images_map ∙ ap (change _) there)
        (ground (arith, full)))
