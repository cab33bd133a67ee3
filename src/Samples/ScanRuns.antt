-- ===== src/Samples/ScanRuns.antt =====
-- The choice of nodes and the rounds of scans, on one node and one image.
mod Sorting
mod Loops
use mathlib.Core.List.{Mem, Perm}
use mathlib.Core.List.Perm
use text.Mathlib.Text.{◌==◌}
use kvisor.Base.{
  ℕ, ◌≤◌, length, keep, eq_str-test, String, pos, lookup, keys, has, has-keys, ◌≡◌, ◌≢◌, ap, insert,
  lookup-insert_self, refl, List, [], ◌∷◌, Option, some, none, Bool, true, false, inl, inr, arith,
  All,
}
use kvisor.ImageScan.Runtime.{runtime_containerd}
use kvisor.ImageScan.State.{NodeUsage, ScanError, private_image, Backoff, Image, DeltaState}
use kvisor.ImageScan.State.Pods.{use_image}
use kvisor.ImageScan.State.Invariant.{Inv, ImageInv, NodeInv}
use kvisor.ImageScan.Select.{ScanConfig, host_fs, Choice, find_best_node, find_best_node_and_mode}
use kvisor.ImageScan.Select.Fits.{Picks, find_best_node-Picks}
use kvisor.ImageScan.Select.Resolved.{Resolved, find_best_node_and_mode-Resolved}
use kvisor.ImageScan.Schedule.{
  images_for_scan, concurrent_scans_number, succeeded, failed, end_scan, is_image_pending,
}
use kvisor.ImageScan.Schedule.Pending.{AllNamed}
use kvisor.ImageScan.Schedule.Rounds.{scan_rounds, scan_rounds_end}
use kvisor.ImageScan.State.{get_images}
use kvisor.ImageScan.Schedule.Round.{Round, images_for_scan-Round}
use kvisor.ImageScan.Schedule.Ends.{end_scan_comm, end_scan_quiet, end_scan-Inv}
use kvisor.ImageScan.Report.{
  Controller, SyncState, ScannedImage, images_state, ImageChange, StatusRequest, image_change,
  is_reported, status_request, update_image_statuses, sync_from_remote_state, sync_filter,
  is_not_synced,
}
use kvisor.ImageScan.Report.Statuses.{
  status_request-Mem, update_image_statuses_settles, new_owner-reported,
}
use kvisor.ImageScan.Report.Remote.{
  synced, is_named, sync_from_remote_state-cases, full_resync-reports,
}
use kvisor.Samples.{web_pod, web_status}
use kvisor.Samples.ScanRuns.Sorting.{sorted, sorted-perm, sorted-Ordered}

abbrev pub node_usage : NodeUsage
node_usage = record {
  name = "n1";
  architecture = "amd64";
  os = "linux";
  allocatable_mem = pos 100;
  allocatable_cpu = pos 10;
  pods = [];
  castai_managed = true;
}

abbrev pub backoff : Backoff
backoff = record { duration = 60; factor = 3; steps = 8 }

abbrev pub web_image : Image
web_image = record {
  key = "k1";
  id = "web@sha";
  name = "web:1";
  architecture = "amd64";
  os = "linux";
  container_runtime = runtime_containerd;
  owners = ("d1", ("p1", tt) ∷ []) ∷ [];
  nodes = ("n1", ("p1", tt) ∷ []) ∷ [];
  scanned = false;
  last_scan_err = none;
  failures = 0;
  retry_backoff = backoff;
  next_scan = 0;
  last_remote_sync_at = 0;
  owner_changed_at = 900;
  resources_updated_at = 0;
}

abbrev pub state : DeltaState
state = record { images = ("k1", web_image) ∷ []; nodes = ("n1", node_usage) ∷ [] }

state-Inv : Inv state
unfolding lookup
state-Inv = record {
  images_map = (refl, tt);
  images_good = (
    record {
      keyed = refl;
      owners_map = (refl, tt);
      owners_busy = (refl, tt);
      nodes_map = (refl, tt);
      used = refl;
    },
    tt,
  );
  nodes_map = (refl, tt);
  nodes_good = (record { named = refl; pods_map = tt; pods_keyed = tt }, tt);
}

abbrev config : ScanConfig
config = record {
  mode = host_fs;
  memory_request = some (pos 50);
  cpu_request = some (pos 1);
  scan_interval = pos 15000000000;
  max_concurrent_scans = pos 3;
}

pub held {ℓ} : {V : Type ℓ} (k : String) (v : V) → lookup k ((k, v) ∷ []) ≡ some v
unfolding insert
held k v = lookup-insert_self k v []

-- A backoff that does not grow.
abbrev pub steady : Backoff → ℕ × Backoff
steady b = (60, b)

find_best_node_and_mode-Resolved_example :
    Resolved config
      (pos 50)
      (pos 1)
      state
      web_image
      (find_best_node_and_mode (λ less xs. xs) config state web_image)
find_best_node_and_mode-Resolved_example =
    find_best_node_and_mode-Resolved (λ less xs. xs) (λ less xs. Perm.refl xs) config state
      state-Inv web_image (pos 50) (pos 1) refl refl

images_for_scan-Round_example :
    (images : List Image) × (left : List Image) × (images_for_scan sorted config state 1000
      ≡ some images)
    × Round state 1000 1 images left
unfolding concurrent_scans_number
images_for_scan-Round_example =
    images_for_scan-Round sorted sorted-perm sorted-Ordered config state 1000 1 refl

end_scan_quiet_example :
    (img' : Image) × (lookup "k1" (end_scan steady state 5 "k1" (failed private_image)).images
      ≡ some img')
    × (is_image_pending img' 9000 ≡ false)
unfolding lookup
end_scan_quiet_example =
    end_scan_quiet steady state "k1" 5 (failed private_image) web_image 9000 (held "k1" web_image)
      (omega arith) (inr (inl refl))

abbrev controller : Controller
controller = record { delta = state; full_snapshot_sent = true }

abbrev new_image : Image
new_image = record web_image { owners = [] }

abbrev joined : DeltaState
joined = record state { images = ("k1", use_image new_image 950 web_pod "d2" web_status) ∷ [] }

new_owner-reported_example :
    (request : StatusRequest) × (change : ImageChange) × (status_request
        (record controller { delta = joined })
        1000
      ≡ some request)
    × Mem change request.images
    × (change.id ≡ "web@sha")
    × (has "d2" change.resource_ids ≡ true)
unfolding lookup
new_owner-reported_example =
    new_owner-reported (record controller { delta = joined }) 950 1000 "k1" "d2" web_pod web_status
      new_image refl (omega arith) (held "k1" (use_image new_image 950 web_pod "d2" web_status))

abbrev answer : SyncState
answer = record {
  full_resources_resync_required = true;
  scanned_images = record { id = "web@sha"; architecture = "amd64" } ∷ [];
}

some_asked : sync_filter state 1000 ≢ []
unfolding sync_filter
some_asked e = cc

sync_from_remote_state-cases_example :
    (img' : Image) × (lookup "k1"
        (sync_from_remote_state controller 1000 (images_state answer)).delta.images
      ≡ some img')
    × (img'.scanned ≡ is_named answer.scanned_images web_image)
    × (is_not_synced 1500 img' ≡ true → is_not_synced 1000 web_image ≡ false)
unfolding lookup
sync_from_remote_state-cases_example =
    sync_from_remote_state-cases controller 1000 1500 answer "k1" web_image state-Inv some_asked
      (omega arith) (held "k1" web_image)

full_resync-reports_example :
    (request : StatusRequest) × (status_request
        (sync_from_remote_state controller 1000 (images_state answer))
        1100
      ≡ some request)
    × Mem (image_change 1100 (synced 1000 answer.scanned_images web_image)) request.images
unfolding lookup
full_resync-reports_example =
    full_resync-reports controller 1000 1100 answer "k1" web_image state-Inv some_asked refl
      (held "k1" web_image)

state-AllNamed : AllNamed state
unfolding lookup
state-AllNamed = ((refl, tt), ((refl, eq_str-test "web:1" ""), tt))

one_pending : length (keep (λ img. is_image_pending img 1000) (get_images state)) ≤ 1
unfolding get_images
one_pending = ground arith

scan_rounds_end_example :
    keep
      (λ img. is_image_pending img 1000)
      (get_images (scan_rounds sorted sorted-perm sorted-Ordered steady config 1000 1 state))
    ≡ []
scan_rounds_end_example =
    scan_rounds_end sorted sorted-perm sorted-Ordered steady config 1000 1 2 state refl
      state-AllNamed one_pending
