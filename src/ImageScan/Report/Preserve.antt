-- ===== src/ImageScan/Report/Preserve.antt =====
-- What the server says and what it is told leave the state well formed.
use kvisor.Base.{
  ℕ, String, List, [], ◌∷◌, Option, none, some, some_inj, Bool, true, false, eq_str, ◌&&◌,
  range_update, range_update-IsMap, range_update-AllEntries, if◌then◌else◌, subst,
}
use kvisor.ImageScan.State.{Image, DeltaState}
use kvisor.ImageScan.State.Invariant.{Inv, ImageInv}
use kvisor.ImageScan.Report.{
  Controller, ScannedImage, SyncAnswer, images_state, sync_error, no_images, is_reported,
  is_not_synced, mark_reported, mark_synced, set_image_scanned, set_images_scanned,
  apply_sync_state, sync_from_remote_state, sync_filter, status_request, StatusRequest,
  update_image_statuses,
}

-- A change of every image that keeps what the invariant reads of it.
update_all-Inv :
    (d : DeltaState) (change : Image → Image)
    → ((k : String) (img : Image) → ImageInv k img → ImageInv k (change img))
    → Inv d
    → Inv (record d { images = range_update (λ _ img. some (change img)) d.images })
update_all-Inv d change keeps h = record {
  images_map = range_update-IsMap (λ _ img. some (change img)) d.images h.images_map;
  images_good =
      range_update-AllEntries ImageInv (λ _ img. some (change img))
        (λ k v w e i. subst (ImageInv k) (some_inj e) (keeps k v i)) d.images h.images_good;
  nodes_map = h.nodes_map;
  nodes_good = h.nodes_good;
}

-- The fields that the invariant does not read.
abbrev with_times : Image → Bool × (ℕ × ℕ) → Image
with_times img (scanned, (synced, updated)) = record img {
  scanned = scanned;
  last_remote_sync_at = synced;
  resources_updated_at = updated;
}

with_times-ImageInv :
    (k : String) (img : Image) (v : Bool × (ℕ × ℕ)) → ImageInv k img → ImageInv k (with_times img v)
with_times-ImageInv k img v i = record {
  keyed = i.keyed;
  owners_map = i.owners_map;
  owners_busy = i.owners_busy;
  nodes_map = i.nodes_map;
  used = i.used;
}

if-ImageInv :
    (k : String) (b : Bool) (x y : Image)
    → ImageInv k x
    → ImageInv k y
    → ImageInv k (if b then x else y)
if-ImageInv k true x y hx hy = hx
if-ImageInv k false x y hx hy = hy

mark_reported-Inv :
    (sent : Bool) (now : ℕ) (d : DeltaState) → Inv d → Inv (mark_reported sent now d)
unfolding mark_reported
mark_reported-Inv sent now d h =
    update_all-Inv d
      (λ img. if is_reported sent img then record img { resources_updated_at = now } else img)
      (λ k img i.
        if-ImageInv k _ _ img
          (with_times-ImageInv k img (img.scanned, (img.last_remote_sync_at, now)) i) i)
      h

mark_synced-Inv : (now : ℕ) (d : DeltaState) → Inv d → Inv (mark_synced now d)
unfolding mark_synced
mark_synced-Inv now d h =
    update_all-Inv d
      (λ img. if is_not_synced now img then record img { last_remote_sync_at = now } else img)
      (λ k img i.
        if-ImageInv k _ _ img
          (with_times-ImageInv k img (img.scanned, (now, img.resources_updated_at)) i) i)
      h

set_image_scanned-Inv :
    (d : DeltaState) (scanned_img : ScannedImage) → Inv d → Inv (set_image_scanned d scanned_img)
unfolding set_image_scanned
set_image_scanned-Inv d scanned_img h =
    update_all-Inv d
      (λ img.
        if eq_str img.id scanned_img.id && eq_str img.architecture scanned_img.architecture
        then record img { scanned = true }
        else img)
      (λ k img i.
        if-ImageInv k _ _ img
          (with_times-ImageInv k img (true, (img.last_remote_sync_at, img.resources_updated_at)) i)
          i)
      h

set_images_scanned-Inv :
    (images : List ScannedImage) (d : DeltaState) → Inv d → Inv (set_images_scanned d images)
unfolding set_images_scanned
set_images_scanned-Inv [] d h = h
set_images_scanned-Inv (img ∷ images) d h =
    set_images_scanned-Inv images (set_image_scanned d img) (set_image_scanned-Inv d img h)

-- Whatever the server answers, the state stays well formed.
pub sync_from_remote_state-Inv :
    (c : Controller) (now : ℕ) (answer : SyncAnswer)
    → Inv c.delta
    → Inv (sync_from_remote_state c now answer).delta
unfolding sync_from_remote_state apply_sync_state
sync_from_remote_state-Inv c now answer h = by_filter (sync_filter c.delta now) answer
  where
    by_filter :
        (ids : List String) (a : SyncAnswer)
        → Inv
            (elim ids as (λ _. Controller) [
              | [] ↦ c
              | _ ∷ _ ↦ elim a as (λ _. Controller) [
                | images_state state ↦ apply_sync_state c now state
                | _ ↦ c
              ]
            ]).delta
    by_filter [] a = h
    by_filter (i ∷ ids) sync_error = h
    by_filter (i ∷ ids) no_images = h
    by_filter (i ∷ ids) (images_state state) =
        set_images_scanned-Inv state.scanned_images (mark_synced now c.delta)
          (mark_synced-Inv now c.delta h)

-- Whether or not the report is delivered, the state stays well formed.
pub update_image_statuses-Inv :
    (c : Controller) (now : ℕ) (delivered : Bool)
    → Inv c.delta
    → Inv (update_image_statuses c now delivered).delta
unfolding update_image_statuses
update_image_statuses-Inv c now delivered h = by_request (status_request c now) delivered
  where
    by_request :
        (request : Option StatusRequest) (b : Bool)
        → Inv
            (elim request as (λ _. Controller) [
              | none ↦ c
              | some _ ↦
                  if b
                  then record {
                    delta = mark_reported c.full_snapshot_sent now c.delta;
                    full_snapshot_sent = true;
                  }
                  else c
            ]).delta
    by_request none b = h
    by_request (some request) false = h
    by_request (some request) true = mark_reported-Inv c.full_snapshot_sent now c.delta h
