-- ===== src/ImageScan/Run.antt =====
-- imagescan/controller.go: `Run` as steps that interleave: the informers put events into the queue,
-- `Run` takes them, waits first for `initialScansDelay`, then schedules scans at each tick, and the
-- scans of a round end in any order, while `Run` waits for them, or afterwards, if it went on.
pub mod Safety
pub mod Sound
pub mod Reached
pub mod Known
pub mod Order
use kvisor.Base.{
  ℕ, suc, ℤ, pos, ◌<◌, String, length, List, [], ◌∷◌, ◌++◌, map, Option, none, some, Bool, true,
  false, if◌then◌else◌, ◌≡◌,
}
use kvisor.Kube.Object.{Object, Pod, Event, event_add, event_update, event_delete}
use kvisor.ImageScan.State.{NodeUsage, Backoff, Image, DeltaState, new_delta_state}
use kvisor.ImageScan.State.Pods.{upsert, delete_object}
use kvisor.ImageScan.Select.{ScanConfig, panicked, find_best_node_and_mode}
use kvisor.ImageScan.Jobs.Spec.{ScannerConfig, ScanImageParams}
use kvisor.ImageScan.Jobs.Scan.{job_of}
use kvisor.ImageScan.Schedule.{ScanEnd, images_for_scan, start_scans, end_scan}
use kvisor.ImageScan.Report.{Controller, SyncAnswer, sync_from_remote_state, update_image_statuses}

-- Where `Run` stands: in `waitInitialDeltaQueueSync`, at its `select`, in `scanImages`, returned, or
-- ended by a panic.
pub data Phase : Type 0 where
  syncing idle scanning stopped crashed : Phase

-- The controller and the goroutines of `scanImages`, by the keys of their images: those of the round
-- that `Run` waits for, and those that it no longer waits for.
pub record Loop : Type 0 where
  pub controller : Controller
  pub queue : List (Event × Object)
  pub phase : Phase
  pub waited : List String
  pub loose : List String

abbrev pub new_loop : Loop
new_loop = record {
  controller = record { delta = new_delta_state; full_snapshot_sent = false };
  queue = [];
  phase = syncing;
  waited = [];
  loose = [];
}

-- The capacity of the queue.
abbrev pub queue_size : ℕ
queue_size = 1000

-- `handleDelta`; `get_pod_owner_id` is what the kube controller answers at that time.
unfoldable pub handle_delta : (Pod → String) → DeltaState → ℕ → Event × Object → DeltaState
handle_delta get_pod_owner_id d now (event_add, o) = upsert get_pod_owner_id d now o
handle_delta get_pod_owner_id d now (event_update, o) = upsert get_pod_owner_id d now o
handle_delta get_pod_owner_id d now (event_delete, o) = delete_object get_pod_owner_id d now o

-- The phases in which an event is taken from the queue.
abbrev pub takes_deltas : Phase → Bool
takes_deltas syncing = true
takes_deltas idle = true
takes_deltas _ = false

abbrev pub key_of : Image → String
key_of img = img.key

abbrev pub with_delta : Controller → DeltaState → Controller
with_delta c d = record c { delta = d }

-- The rest of `scheduleScans` on the scans that `scanImages` starts. An image without a name makes
-- it return at once, with an error that is logged.
unfoldable pub begin_round : Loop → Controller → List Image × Bool → Loop
begin_round s c (started, true) = record s { controller = c; loose = map key_of started ++ s.loose }
begin_round s c ([], false) = record s { controller = c }
begin_round s c (img ∷ images, false) = record s {
  controller = c;
  phase = scanning;
  waited = map key_of (img ∷ images);
}

module _ (sort_slice : (Image → Image → Bool) → List Image → List Image) (cfg : ScanConfig)
    (step : Backoff → ℕ × Backoff) where
  -- `scheduleScans`, with the times at which its parts look at the clock and the client's answers.
  unfoldable pub schedule_scans : Loop → ℕ × (ℕ × ℕ) → SyncAnswer → Bool → Loop
  unfolding begin_round
  schedule_scans s (t, (u, v)) answer delivered =
      let c = update_image_statuses (sync_from_remote_state s.controller t answer) u delivered in
      elim (images_for_scan sort_slice cfg c.delta v) [
        | none ↦ record s { controller = c; phase = crashed }
        | some images ↦ begin_round s c (start_scans images)
      ]

-- `time.NewTicker` panics if its interval is not positive.
abbrev pub after_delay : ℤ → Phase
after_delay (pos (suc n)) = idle
after_delay _ = crashed

-- What the goroutines of scans use besides: the sort of nodes, the parser of quantities, the hash of
-- names and the settings of the scanner.
pub record Scans : Type 0 where
  pub sort_nodes : (NodeUsage → NodeUsage → Bool) → List NodeUsage → List NodeUsage
  pub must_parse : String → Option ℤ
  pub fnv_hex : String → String
  pub scanner : ScannerConfig

-- The panics of a scan of an image, which end the agent: in `findBestNodeAndMode`, or as the quantities
-- of the job do not parse.
pub data ScanPanics (cfg : ScanConfig) (scans : Scans) (d : DeltaState) (img : Image) : Type 0 where
  no_choice :
      find_best_node_and_mode scans.sort_nodes cfg d img ≡ panicked → ScanPanics cfg scans d img
  no_job :
      (params : ScanImageParams)
      → job_of scans.must_parse scans.fnv_hex scans.scanner params ≡ none
      → ScanPanics cfg scans d img

module _ (sort_slice : (Image → Image → Bool) → List Image → List Image) (cfg : ScanConfig)
    (step : Backoff → ℕ × Backoff) (scans : Scans) where
  pub data Step : Loop → Loop → Type 0 where
    -- `OnAdd`, `OnUpdate` and `OnDelete`, which wait while the queue is full.
    receive :
        (s : Loop) (item : Event × Object)
        → length s.queue < queue_size
        → Step s (record s { queue = s.queue ++ (item ∷ []) })
    handle :
        (s : Loop) (get_pod_owner_id : Pod → String) (now : ℕ) (item : Event × Object)
        (later : List (Event × Object))
        → takes_deltas s.phase ≡ true
        → s.queue ≡ item ∷ later
        → Step s (record s {
          controller =
              with_delta s.controller (handle_delta get_pod_owner_id s.controller.delta now item);
          queue = later;
        })
    initial_delay_over :
        (s : Loop) → s.phase ≡ syncing → Step s (record s { phase = after_delay cfg.scan_interval })
    tick :
        (s : Loop) (times : ℕ × (ℕ × ℕ)) (answer : SyncAnswer) (delivered : Bool)
        → s.phase ≡ idle
        → Step s (schedule_scans sort_slice cfg step s times answer delivered)
    scan_ends :
        (s : Loop) (now : ℕ) (key : String) (e : ScanEnd) (before after : List String)
        → s.waited ≡ before ++ (key ∷ after)
        → Step s (record s {
          controller = with_delta s.controller (end_scan step s.controller.delta now key e);
          waited = before ++ after;
        })
    loose_scan_ends :
        (s : Loop) (now : ℕ) (key : String) (e : ScanEnd) (before after : List String)
        → s.loose ≡ before ++ (key ∷ after)
        → Step s (record s {
          controller = with_delta s.controller (end_scan step s.controller.delta now key e);
          loose = before ++ after;
        })
    scan_panics :
        (s : Loop) (img : Image) (before after : List String)
        → s.waited ++ s.loose ≡ before ++ (img.key ∷ after)
        → ScanPanics cfg scans s.controller.delta img
        → Step s (record s { phase = crashed })
    round_ends :
        (s : Loop) → s.phase ≡ scanning → s.waited ≡ [] → Step s (record s { phase = idle })
    -- The context is done: `scanImages` returns without its scans, `Run` returns.
    give_up_round :
        (s : Loop)
        → s.phase ≡ scanning
        → Step s (record s { phase = idle; waited = []; loose = s.waited ++ s.loose })
    return : (s : Loop) → takes_deltas s.phase ≡ true → Step s (record s { phase = stopped })

  pub data Reach (s : Loop) : Loop → Type 0 where
    here : Reach s s
    next : {t u : Loop} → Reach s t → Step t u → Reach s u
