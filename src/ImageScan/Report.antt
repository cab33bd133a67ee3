-- ===== src/ImageScan/Report.antt =====
-- imagescan/controller.go: what the server is told of the images (`updateImageStatuses`) and what
-- the server tells (`syncFromRemoteState`, with `setImageScanned` of imagescan/delta.go). The
-- answers of the client are arguments.
pub mod Statuses
pub mod Remote
pub mod Preserve
use kvisor.Base.{
  ℕ, ◌+◌, String, range_update, keys, List, [], ◌∷◌, Option, none, some, Bool, true, false, not,
  ◌&&◌, if◌then◌else◌, eq_str, keep, map, ltb,
}
use kvisor.ImageScan.State.{Image, DeltaState, get_images}
use kvisor.ImageScan.Schedule.{is_image_pending}

-- The state of `Controller`.
pub record Controller : Type 0 where
  pub delta : DeltaState
  pub full_snapshot_sent : Bool

-- `castai.ImageScanStatus`; an empty status is `status_unset`.
pub data ScanStatus : Type 0 where
  status_unset status_pending status_error : ScanStatus

-- `castai.Image`, with the resource IDs of its change.
pub record ImageChange : Type 0 where
  pub id : String
  pub architecture : String
  pub image_name : String
  pub resource_ids : List String
  pub status : ScanStatus
  pub error_msg : String

pub record StatusRequest : Type 0 where
  pub full_snapshot : Bool
  pub images : List ImageChange

unfoldable pub image_change : ℕ → Image → ImageChange
image_change now img = record {
  id = img.id;
  architecture = img.architecture;
  image_name = img.name;
  resource_ids = keys img.owners;
  status = if is_image_pending img now then status_pending else status_unset;
  error_msg = "";
}

-- The request of `updateImageStatusAsFailed`.
unfoldable pub failed_request : Image → String → StatusRequest
failed_request img error_msg = record {
  full_snapshot = false;
  images =
      record {
        id = img.id;
        architecture = img.architecture;
        image_name = img.name;
        resource_ids = [];
        status = status_error;
        error_msg = error_msg;
      }
      ∷ [];
}

-- Whether an image is in the next report.
unfoldable pub is_reported : Bool → Image → Bool
is_reported full_snapshot_sent img =
    if full_snapshot_sent then ltb img.resources_updated_at img.owner_changed_at else true

-- The request of `updateImageStatuses`, unless there is nothing to send.
unfoldable pub status_request : Controller → ℕ → Option StatusRequest
unfolding get_images is_reported image_change
status_request c now = elim (keep (is_reported c.full_snapshot_sent) (get_images c.delta)) [
  | [] ↦ none
  | img ∷ images ↦ some (record {
    full_snapshot = c.full_snapshot_sent;
    images = map (image_change now) (img ∷ images);
  })
]

-- The images in the list are the ones that `d.images` holds.
unfoldable pub mark_reported : Bool → ℕ → DeltaState → DeltaState
unfolding is_reported
mark_reported full_snapshot_sent now d = record d {
  images =
      range_update
        (λ _ img. some (
          if is_reported full_snapshot_sent img
          then record img { resources_updated_at = now }
          else img))
        d.images;
}

-- `delivered` is the client's answer.
unfoldable pub update_image_statuses : Controller → ℕ → Bool → Controller
unfolding status_request mark_reported
update_image_statuses c now delivered = elim (status_request c now) [
  | none ↦ c
  | some _ ↦
      if delivered
      then record {
        delta = mark_reported c.full_snapshot_sent now c.delta;
        full_snapshot_sent = true;
      }
      else c
]

-- `castai.ScannedImage`, `castai.ImagesSyncState`.
pub record ScannedImage : Type 0 where
  pub id : String
  pub architecture : String

pub record SyncState : Type 0 where
  pub full_resources_resync_required : Bool
  pub scanned_images : List ScannedImage

-- The client's answer to `GetSyncState`: an error, or a response with or without images.
pub data SyncAnswer : Type 0 where
  sync_error no_images : SyncAnswer
  images_state : SyncState → SyncAnswer

-- Ten minutes, in seconds.
abbrev pub sync_interval : ℕ
sync_interval = 600

unfoldable pub is_not_synced : ℕ → Image → Bool
is_not_synced now img = not img.scanned && ltb (img.last_remote_sync_at + sync_interval) now

-- The images IDs that the server is asked about.
unfoldable pub sync_filter : DeltaState → ℕ → List String
unfolding get_images is_not_synced
sync_filter d now = map (λ img. img.id) (keep (is_not_synced now) (get_images d))

unfoldable pub mark_synced : ℕ → DeltaState → DeltaState
unfolding is_not_synced
mark_synced now d = record d {
  images =
      range_update
        (λ _ img.
          some (if is_not_synced now img then record img { last_remote_sync_at = now } else img))
        d.images;
}

unfoldable pub set_image_scanned : DeltaState → ScannedImage → DeltaState
set_image_scanned d scanned_img = record d {
  images =
      range_update
        (λ _ img. some (
          if eq_str img.id scanned_img.id && eq_str img.architecture scanned_img.architecture
          then record img { scanned = true }
          else img))
        d.images;
}

unfoldable pub set_images_scanned : DeltaState → List ScannedImage → DeltaState
unfolding set_image_scanned
set_images_scanned d [] = d
set_images_scanned d (img ∷ images) = set_images_scanned (set_image_scanned d img) images

unfoldable pub apply_sync_state : Controller → ℕ → SyncState → Controller
unfolding mark_synced set_images_scanned
apply_sync_state c now state = record {
  delta = set_images_scanned (mark_synced now c.delta) state.scanned_images;
  full_snapshot_sent = if state.full_resources_resync_required then false else c.full_snapshot_sent;
}

unfoldable pub sync_from_remote_state : Controller → ℕ → SyncAnswer → Controller
unfolding sync_filter apply_sync_state
sync_from_remote_state c now answer = elim (sync_filter c.delta now) [
  | [] ↦ c
  | _ ∷ _ ↦ elim answer [ images_state state ↦ apply_sync_state c now state | _ ↦ c ]
]
