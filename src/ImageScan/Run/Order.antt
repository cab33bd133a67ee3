-- ===== src/ImageScan/Run/Order.antt =====
-- The queue of `Run`: what happens to the events that the informers hand over.
use mathlib.Core.List.{append_assoc, append-nil}
use kvisor.Base.{
  ℕ, String, lookup, is_some, ◌≤◌, length, length-append, List, [], ◌∷◌, ◌++◌, Bool, true, false,
  ◌≡◌, refl, sym, ap, ◌∙◌, arith, Option-cases, inl, inr,
}
use kvisor.Kube.Object.{Object, Event}
use kvisor.ImageScan.State.{Backoff, Image, DeltaState}
use kvisor.ImageScan.Select.{ScanConfig}
use kvisor.ImageScan.Schedule.{images_for_scan, start_scans, end_scan}
use kvisor.ImageScan.Report.{Controller, SyncAnswer, sync_from_remote_state, update_image_statuses}
use kvisor.ImageScan.Run.Known.{
  knows, last_there, last_there-append, handle_delta-knows, sync-nodes, statuses-nodes,
}
use kvisor.ImageScan.Run.Safety.{end_scan-nodes}
use kvisor.ImageScan.Run.{
  Loop, new_loop, queue_size, begin_round, schedule_scans, Step, receive, handle,
  initial_delay_over, tick, scan_ends, loose_scan_ends, Scans, scan_panics, round_ends,
  give_up_round, return, Reach, here, next,
}

begin_round-queue :
    (s : Loop) (c : Controller) (r : List Image × Bool) → (begin_round s c r).queue ≡ s.queue
unfolding begin_round
begin_round-queue s c (started, true) = refl
begin_round-queue s c ([], false) = refl
begin_round-queue s c (img ∷ images, false) = refl

begin_round-controller :
    (s : Loop) (c : Controller) (r : List Image × Bool) → (begin_round s c r).controller ≡ c
unfolding begin_round
begin_round-controller s c (started, true) = refl
begin_round-controller s c ([], false) = refl
begin_round-controller s c (img ∷ images, false) = refl

module _ (sort_slice : (Image → Image → Bool) → List Image → List Image) (cfg : ScanConfig)
    (step : Backoff → ℕ × Backoff) (scans : Scans) where
  tick-queue :
      (s : Loop) (times : ℕ × (ℕ × ℕ)) (answer : SyncAnswer) (delivered : Bool)
      → (schedule_scans sort_slice cfg step s times answer delivered).queue ≡ s.queue
  unfolding schedule_scans
  tick-queue s (t, (u, v)) answer delivered =
      let c = update_image_statuses (sync_from_remote_state s.controller t answer) u delivered in
      elim (Option-cases (images_for_scan sort_slice cfg c.delta v)) [
        | inl gone ↦ rw (gone, schedule_scans) refl
        | inr (images, taken) ↦
            rw (taken, schedule_scans) (begin_round-queue s c (start_scans images))
      ]

  -- The event that a step puts into the queue, and the one that it takes and applies.
  abbrev pub step_received :
      {s t : Loop} → Step sort_slice cfg step scans s t → List (Event × Object)
  step_received (receive s item room) = item ∷ []
  step_received (handle s get_pod_owner_id now item later p q) = []
  step_received (initial_delay_over s p) = []
  step_received (tick s times answer delivered p) = []
  step_received (scan_ends s now key e before after w) = []
  step_received (loose_scan_ends s now key e before after l) = []
  step_received (scan_panics s img before after l panic) = []
  step_received (round_ends s p w) = []
  step_received (give_up_round s p) = []
  step_received (return s p) = []

  abbrev pub step_handled :
      {s t : Loop} → Step sort_slice cfg step scans s t → List (Event × Object)
  step_handled (receive s item room) = []
  step_handled (handle s get_pod_owner_id now item later p q) = item ∷ []
  step_handled (initial_delay_over s p) = []
  step_handled (tick s times answer delivered p) = []
  step_handled (scan_ends s now key e before after w) = []
  step_handled (loose_scan_ends s now key e before after l) = []
  step_handled (scan_panics s img before after l panic) = []
  step_handled (round_ends s p w) = []
  step_handled (give_up_round s p) = []
  step_handled (return s p) = []

  -- The events of a run, in their order.
  abbrev pub received : {s t : Loop} → Reach sort_slice cfg step scans s t → List (Event × Object)
  received here = []
  received (next r st) = received r ++ step_received st

  abbrev pub handled : {s t : Loop} → Reach sort_slice cfg step scans s t → List (Event × Object)
  handled here = []
  handled (next r st) = handled r ++ step_handled st

  Step-in_order :
      {s t : Loop} (st : Step sort_slice cfg step scans s t)
      → s.queue ++ step_received st ≡ step_handled st ++ t.queue
  Step-in_order (receive s item room) = refl
  Step-in_order (handle s get_pod_owner_id now item later p q) = append-nil s.queue ∙ q
  Step-in_order (initial_delay_over s p) = append-nil s.queue
  Step-in_order (tick s times answer delivered p) =
      append-nil s.queue ∙ sym (tick-queue s times answer delivered)
  Step-in_order (scan_ends s now key e before after w) = append-nil s.queue
  Step-in_order (loose_scan_ends s now key e before after l) = append-nil s.queue
  Step-in_order (scan_panics s img before after l panic) = append-nil s.queue
  Step-in_order (round_ends s p w) = append-nil s.queue
  Step-in_order (give_up_round s p) = append-nil s.queue
  Step-in_order (return s p) = append-nil s.queue

  tick-nodes :
      (s : Loop) (times : ℕ × (ℕ × ℕ)) (answer : SyncAnswer) (delivered : Bool)
      → (schedule_scans sort_slice cfg step s times answer delivered).controller.delta.nodes
        ≡ s.controller.delta.nodes
  unfolding schedule_scans
  tick-nodes s (t, (u, v)) answer delivered =
      let c = update_image_statuses (sync_from_remote_state s.controller t answer) u delivered in
      let same =
        statuses-nodes (sync_from_remote_state s.controller t answer) u delivered
        ∙ sync-nodes s.controller t answer in
      elim (Option-cases (images_for_scan sort_slice cfg c.delta v)) [
        | inl gone ↦ rw (gone, schedule_scans) same
        | inr (images, taken) ↦
            rw (taken, schedule_scans)
              (ap (λ (d : Controller). d.delta.nodes)
                  (begin_round-controller s c (start_scans images))
                ∙ same)
      ]

  same_nodes : (name : String) (d e : DeltaState) → e.nodes ≡ d.nodes → knows e name ≡ knows d name
  same_nodes name d e same = ap (λ nodes. is_some (lookup name nodes)) same

  Step-knows :
      {s t : Loop} (st : Step sort_slice cfg step scans s t) (name : String)
      → knows t.controller.delta name
        ≡ last_there name (knows s.controller.delta name) (step_handled st)
  Step-knows (receive s item room) name = refl
  Step-knows (handle s get_pod_owner_id now item later p q) name =
      handle_delta-knows get_pod_owner_id s.controller.delta now item name
  Step-knows (initial_delay_over s p) name = refl
  Step-knows (tick s times answer delivered p) name =
      same_nodes name s.controller.delta
        (schedule_scans sort_slice cfg step s times answer delivered).controller.delta
        (tick-nodes s times answer delivered)
  Step-knows (scan_ends s now key e before after w) name =
      same_nodes name s.controller.delta (end_scan step s.controller.delta now key e)
        (end_scan-nodes step s.controller.delta now key e)
  Step-knows (loose_scan_ends s now key e before after l) name =
      same_nodes name s.controller.delta (end_scan step s.controller.delta now key e)
        (end_scan-nodes step s.controller.delta now key e)
  Step-knows (scan_panics s img before after l panic) name = refl
  Step-knows (round_ends s p w) name = refl
  Step-knows (give_up_round s p) name = refl
  Step-knows (return s p) name = refl

  Reach-knows :
      {s : Loop} (r : Reach sort_slice cfg step scans new_loop s) (name : String)
      → knows s.controller.delta name ≡ last_there name false (handled r)
  unfolding lookup
  Reach-knows here name = refl
  Reach-knows (next r st) name =
      Step-knows st name
      ∙ ap (λ b. last_there name b (step_handled st)) (Reach-knows r name)
      ∙ sym (last_there-append name false (handled r) (step_handled st))

  Step-queue_size :
      {s t : Loop}
      → Step sort_slice cfg step scans s t
      → length s.queue ≤ queue_size
      → length t.queue ≤ queue_size
  Step-queue_size (receive s item room) h = omega (arith, length-append s.queue (item ∷ []))
  Step-queue_size (handle s get_pod_owner_id now item later p q) h = omega (arith, ap length q)
  Step-queue_size (initial_delay_over s p) h = h
  Step-queue_size (tick s times answer delivered p) h =
      omega (arith, ap length (tick-queue s times answer delivered))
  Step-queue_size (scan_ends s now key e before after w) h = h
  Step-queue_size (loose_scan_ends s now key e before after l) h = h
  Step-queue_size (scan_panics s img before after l panic) h = h
  Step-queue_size (round_ends s p w) h = h
  Step-queue_size (give_up_round s p) h = h
  Step-queue_size (return s p) h = h

  Reach-queue :
      {s : Loop} (r : Reach sort_slice cfg step scans new_loop s)
      → (received r ≡ handled r ++ s.queue) × (length s.queue ≤ queue_size)
  Reach-queue here = (refl, omega arith)
  Reach-queue (next {t} r st) =
      let ih = Reach-queue r in
      (
        ap (λ l. l ++ step_received st) ih.0
            ∙ append_assoc (handled r) t.queue (step_received st)
            ∙ ap (λ l. handled r ++ l) (Step-in_order st)
            ∙ sym (append_assoc (handled r) (step_handled st) _),
        Step-queue_size st ih.1,
      )

  -- In every run of the image scan controller, events are applied to its state in the order in which
  -- the informers handed them over, each once and none is dropped: the ones that were received are
  -- those that were applied, followed by those in the queue, which are at most a thousand; and, through
  -- all ticks, reports and scans between them, the state has a node exactly if, of the events that
  -- were applied, the last one about a node of this name added or updated it.
  pub Reach-in_order :
      {s : Loop} (r : Reach sort_slice cfg step scans new_loop s)
      → (received r ≡ handled r ++ s.queue)
        × (length s.queue ≤ queue_size)
        × ((name : String) → knows s.controller.delta name ≡ last_there name false (handled r))
  Reach-in_order r = let (order, room) = Reach-queue r in (order, room, Reach-knows r)
