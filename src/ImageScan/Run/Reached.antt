-- ===== src/ImageScan/Run/Reached.antt =====
-- Every state that `Run` reaches is safe.
use mathlib.Core.List.{Perm}
use kvisor.Base.{
  ℕ, ◌≤◌, ℤ, pos, negsuc, String, values, has-keys, length, length-append, List, [], ◌∷◌, ◌++◌, map,
  keep, All, All-perm, Bool, true, false, ◌==◌, if◌then◌else◌, ◌≡◌, inl, inr, refl, sym, ap, ◌∙◌,
  subst, arith,
}
use kvisor.ImageScan.State.{Backoff, Image, DeltaState, get_images, node_count}
use kvisor.ImageScan.State.Invariant.{Inv}
use kvisor.ImageScan.Select.{ScanConfig}
use kvisor.ImageScan.Schedule.{
  is_image_pending, fewer_failures, concurrent_scans_number, ScanEnd, start_scans, end_scan,
}
use kvisor.ImageScan.Schedule.Round.{Ordered, images_for_scan-Round}
use kvisor.ImageScan.Schedule.Ends.{end_scan-Inv}
use kvisor.ImageScan.Report.{Controller, SyncAnswer, sync_from_remote_state, update_image_statuses}
use kvisor.ImageScan.Report.Preserve.{sync_from_remote_state-Inv, update_image_statuses-Inv}
use kvisor.ImageScan.Run.{
  Loop, syncing, idle, scanning, stopped, crashed, new_loop, handle_delta, takes_deltas, key_of,
  with_delta, begin_round, schedule_scans, Step, receive, handle, initial_delay_over, tick,
  scan_ends, loose_scan_ends, Scans, scan_panics, round_ends, give_up_round, return, Reach, here,
  next,
}
use kvisor.ImageScan.Run.Sound.{Sound, after_delay-idle, never_panics}
use kvisor.ImageScan.Run.Safety.{
  is_kept, Within, handle_delta-Inv, kept_entries, All-keep_all, All-first, started_some,
  started_le, kept_keys, length-keys, All-less_one, all_kept, end_scan-nodes, IsSafe, limit_of,
  no_scans-Within, not_scanning, resting-IsSafe,
}

no_middle : (before after : List String) (key : String) → ¬ (before ++ (key ∷ after) ≡ [])
no_middle [] after key e = let clash : key ∷ after ≡ [] = e in cc
no_middle (k ∷ before) after key e = let clash : k ∷ (before ++ (key ∷ after)) ≡ [] = e in cc

same_limit :
    (cfg : ScanConfig) (step : Backoff → ℕ × Backoff) (d : DeltaState) (now : ℕ) (key : String)
    (e : ScanEnd)
    → concurrent_scans_number cfg (end_scan step d now key e) ≡ concurrent_scans_number cfg d
unfolding concurrent_scans_number node_count
same_limit cfg step d now key e =
    ap (λ nodes. if length nodes == 1 then pos 1 else cfg.max_concurrent_scans)
      (end_scan-nodes step d now key e)

Within-less : (limit : ℤ) (a b : ℕ) → Within limit a → b ≤ a → Within limit b
Within-less (pos n) a b h l = omega arith
Within-less (negsuc n) a b h l = h

less_one :
    (before after : List String) (key : String)
    → length (before ++ after) ≤ length (before ++ (key ∷ after))
less_one before after key =
    omega (arith, length-append before after, length-append before (key ∷ after))

module _ (sort_slice : (Image → Image → Bool) → List Image → List Image)
    (sort_slice-perm : (less : Image → Image → Bool) (xs : List Image)
      → Perm (sort_slice less xs) xs)
    (sort_slice-Ordered : (xs : List Image) → Ordered (sort_slice fewer_failures xs))
    (cfg : ScanConfig) (step : Backoff → ℕ × Backoff) (scans : Scans)
    (sound : Sound cfg scans) where
  m : ℕ
  m = sound.limit.0

  bounded : cfg.max_concurrent_scans ≡ pos m
  unfolding m
  bounded = sound.limit.1

  begin_round-IsSafe :
      (s : Loop) (c : Controller) (n : ℕ) (r : List Image × Bool)
      → s.phase ≡ idle
      → s.waited ≡ []
      → Inv c.delta
      → concurrent_scans_number cfg c.delta ≡ pos n
      → All (λ (img : Image). is_kept c.delta img.key ≡ true) r.0
      → length r.0 ≤ n
      → IsSafe cfg (begin_round s c r)
  unfolding begin_round
  begin_round-IsSafe s c n (started, true) p w good limit kept small =
      resting-IsSafe cfg m bounded s c s.queue s.phase (map key_of started ++ s.loose) w good
        (λ e. let clash : idle ≡ crashed = sym p ∙ e in cc)
        (λ e. let clash : idle ≡ syncing = sym p ∙ e in cc)
  begin_round-IsSafe s c n ([], false) p w good limit kept small =
      resting-IsSafe cfg m bounded s c s.queue s.phase s.loose w good
        (λ e. let clash : idle ≡ crashed = sym p ∙ e in cc)
        (λ e. let clash : idle ≡ syncing = sym p ∙ e in cc)
  begin_round-IsSafe s c n (img ∷ images, false) p w good limit kept small = record {
    good = good;
    alive = λ e. cc;
    resting = inl refl;
    kept = kept_keys (is_kept c.delta) (img ∷ images) kept;
    limited =
        subst (λ l. Within l (length (map key_of (img ∷ images)))) (sym limit)
          (omega (arith, length-keys (img ∷ images), small));
    early = λ e. let clash : scanning ≡ syncing = e in cc;
  }

  tick-IsSafe :
      (s : Loop) (times : ℕ × (ℕ × ℕ)) (answer : SyncAnswer) (delivered : Bool)
      → s.phase ≡ idle
      → IsSafe cfg s
      → IsSafe cfg (schedule_scans sort_slice cfg step s times answer delivered)
  unfolding schedule_scans get_images
  tick-IsSafe s (t, (u, v)) answer delivered p safe =
      let c = update_image_statuses (sync_from_remote_state s.controller t answer) u delivered in
      let good =
        update_image_statuses-Inv (sync_from_remote_state s.controller t answer) u delivered
          (sync_from_remote_state-Inv s.controller t answer safe.good) in
      let (n, limit) = limit_of cfg c.delta m bounded in
      let (images, left, taken, round) =
        images_for_scan-Round sort_slice sort_slice-perm sort_slice-Ordered cfg c.delta v n limit in
      let w = not_scanning s.phase s.waited (ap takes_deltas p) safe.resting in
      let q = λ (img : Image). is_kept c.delta img.key in
      let all : All (λ img. q img ≡ true) (values c.delta.images) =
        kept_entries (is_kept c.delta) c.delta.images (λ k e. sym (has-keys k c.delta.images) ∙ e)
          good.images_good in
      let pending : All (λ img. q img ≡ true) images = All-first q images left (
        All-perm q (keep (λ img. is_image_pending img v) (values c.delta.images)) (images ++ left)
          round.complete
          (All-keep_all q (λ img. is_image_pending img v) (values c.delta.images) all)) in
      rw (taken, schedule_scans)
        (begin_round-IsSafe s c n (start_scans images) p w good limit
          (started_some q images pending) (omega (arith, started_le images, round.limited)))

  -- A scan ends that `Run` waits for.
  scan_ends-IsSafe :
      (s : Loop) (now : ℕ) (key : String) (e : ScanEnd) (before after : List String)
      → s.waited ≡ before ++ (key ∷ after)
      → IsSafe cfg s
      → IsSafe cfg (record s {
        controller = with_delta s.controller (end_scan step s.controller.delta now key e);
        waited = before ++ after;
      })
  scan_ends-IsSafe s now key e before after w safe = record {
    good = end_scan-Inv step s.controller.delta now key e safe.good;
    alive = safe.alive;
    resting = elim safe.resting [
      | inl p ↦ inl p
      | inr none_left ↦ absurd (no_middle before after key (sym w ∙ none_left))
    ];
    kept = all_kept step now e s.controller.delta key (before ++ after) (
        All-less_one (is_kept s.controller.delta) before after key
          (subst (All (λ k. is_kept s.controller.delta k ≡ true)) w safe.kept));
    limited =
        subst (λ l. Within l (length (before ++ after)))
          (sym (same_limit cfg step s.controller.delta now key e))
          (Within-less (concurrent_scans_number cfg s.controller.delta) (length s.waited)
            (length (before ++ after)) safe.limited
            (omega (arith, less_one before after key, ap length w)));
    early = λ p. absurd (no_middle before after key (sym w ∙ (safe.early p).0));
  }

  Step-IsSafe : {s t : Loop} → Step sort_slice cfg step scans s t → IsSafe cfg s → IsSafe cfg t
  Step-IsSafe (receive s item room) safe = record {
    good = safe.good;
    alive = safe.alive;
    resting = safe.resting;
    kept = safe.kept;
    limited = safe.limited;
    early = safe.early;
  }
  Step-IsSafe (handle s get_pod_owner_id now item later p q) safe =
      let w = not_scanning s.phase s.waited p safe.resting in
      resting-IsSafe cfg m bounded s
        (with_delta s.controller (handle_delta get_pod_owner_id s.controller.delta now item)) later
        s.phase s.loose w (handle_delta-Inv get_pod_owner_id s.controller.delta now item safe.good)
        safe.alive (λ e. (safe.early e).1)
  Step-IsSafe (initial_delay_over s p) safe = rw (after_delay-idle cfg scans sound) (
      resting-IsSafe cfg m bounded s s.controller s.queue idle s.loose (safe.early p).0 safe.good
        (λ e. cc) (λ e. (safe.early p).1))
  Step-IsSafe (tick s times answer delivered p) safe = tick-IsSafe s times answer delivered p safe
  Step-IsSafe (scan_ends s now key e before after w) safe =
      scan_ends-IsSafe s now key e before after w safe
  Step-IsSafe (loose_scan_ends s now key e before after l) safe = record {
    good = end_scan-Inv step s.controller.delta now key e safe.good;
    alive = safe.alive;
    resting = safe.resting;
    kept = all_kept step now e s.controller.delta key s.waited safe.kept;
    limited =
        subst (λ l. Within l (length s.waited))
          (sym (same_limit cfg step s.controller.delta now key e)) safe.limited;
    early = λ p. absurd (no_middle before after key (sym l ∙ (safe.early p).1));
  }
  Step-IsSafe (scan_panics s img before after l panic) safe =
      absurd (never_panics cfg scans sound s.controller.delta img safe.good panic)
  Step-IsSafe (round_ends s p w) safe =
      resting-IsSafe cfg m bounded s s.controller s.queue idle s.loose w safe.good (λ e. cc)
        (λ e. let clash : idle ≡ syncing = e in cc)
  Step-IsSafe (give_up_round s p) safe = record {
    good = safe.good;
    alive = λ e. cc;
    resting = inr refl;
    kept = tt;
    limited = no_scans-Within cfg s.controller.delta m [] bounded refl;
    early = λ e. let clash : idle ≡ syncing = e in cc;
  }
  Step-IsSafe (return s p) safe =
      let w = not_scanning s.phase s.waited p safe.resting in
      resting-IsSafe cfg m bounded s s.controller s.queue stopped s.loose w safe.good (λ e. cc)
        (λ e. let clash : stopped ≡ syncing = e in cc)

  new_loop-IsSafe : IsSafe cfg new_loop
  new_loop-IsSafe = record {
    good = record { images_map = tt; images_good = tt; nodes_map = tt; nodes_good = tt };
    alive = λ e. cc;
    resting = inr refl;
    kept = tt;
    limited = no_scans-Within cfg new_loop.controller.delta m [] bounded refl;
    early = λ e. (refl, refl);
  }

  -- Every state that the image scan controller reaches from its start, in whatever order events,
  -- ticks, ends of scans and the end of its context come, is safe: the state of images and nodes is
  -- well formed, neither the controller nor a scan panicked in starting its ticker, taking the images to
  -- scan, choosing a node or putting a job together, the controller waits for scans only while it is in `scanImages`, only
  -- for scans of images that are still in its state, and for as many as the limit on concurrent scans
  -- allows, and until the initial delay is over there are no scans. This holds if the configured
  -- number of concurrent scans is not negative, the interval between scans is positive, the requests
  -- and limits of scan jobs parse as quantities, and `sort.Slice` permutes the nodes and the images and
  -- puts no image before one with fewer failures.
  pub Reach-IsSafe : {s : Loop} → Reach sort_slice cfg step scans new_loop s → IsSafe cfg s
  Reach-IsSafe here = new_loop-IsSafe
  Reach-IsSafe (next r st) = Step-IsSafe st (Reach-IsSafe r)
