-- ===== src/ImageScan/Run/Safety.antt =====
-- What holds at every moment of `Run`, in whatever order its steps come.
use kvisor.Base.{
  ℕ, suc, ◌≤◌, ℤ, pos, negsuc, String, GoMap, AllEntries, lookup, keys, values, has, is_some,
  length, List, [], ◌∷◌, ◌++◌, map, keep, All, Bool, true, false, ◌==◌, ◌≡◌, ◌≢◌, ◌⊎◌, inl, inr,
  refl, sym, ap, ◌∙◌, subst, arith, Bool-cases, Option-cases,
}
use kvisor.Kube.Object.{Object, Pod, Event, event_add, event_update, event_delete}
use kvisor.ImageScan.State.{Backoff, Image, DeltaState, node_count}
use kvisor.ImageScan.State.Invariant.{Inv, ImageInv}
use kvisor.ImageScan.State.Events.{upsert-Inv, delete_object-Inv}
use kvisor.ImageScan.Select.{ScanConfig}
use kvisor.ImageScan.Schedule.{
  concurrent_scans_number, ScanEnd, given_up, succeeded, failed, update_image, set_image_scan_error,
  start_scans, end_scan,
}
use kvisor.ImageScan.Schedule.Ends.{lookup-end_scan}
use kvisor.ImageScan.Report.{Controller}
use kvisor.ImageScan.Run.{
  Loop, Phase, syncing, scanning, crashed, handle_delta, takes_deltas, key_of,
}

-- The image is in the state.
abbrev pub is_kept : DeltaState → String → Bool
is_kept d key = is_some (lookup key d.images)

-- As many scans as the limit allows.
abbrev pub Within : ℤ → ℕ → Type 0
Within (pos n) scans = scans ≤ n
Within (negsuc n) scans = ⊥

pub handle_delta-Inv :
    (get_pod_owner_id : Pod → String) (d : DeltaState) (now : ℕ) (item : Event × Object)
    → Inv d
    → Inv (handle_delta get_pod_owner_id d now item)
unfolding handle_delta
handle_delta-Inv get_pod_owner_id d now (event_add, o) h = upsert-Inv get_pod_owner_id now d o h
handle_delta-Inv get_pod_owner_id d now (event_update, o) h = upsert-Inv get_pod_owner_id now d o h
handle_delta-Inv get_pod_owner_id d now (event_delete, o) h =
    delete_object-Inv get_pod_owner_id now d o h

-- The images of a map that holds each under its own key are found in it.
pub kept_entries :
    (q : String → Bool) (m : GoMap Image)
    → ((k : String) → has k (keys m) ≡ true → q k ≡ true)
    → AllEntries ImageInv m
    → All (λ (img : Image). q img.key ≡ true) (values m)
kept_entries q [] all h = tt
kept_entries q ((k, img) ∷ m) all h =
    let first = all k (ground arith) in
    (
      subst (λ j. q j ≡ true) (sym h.0.keyed) first,
      kept_entries q m (λ j e. all j (ground (arith, e))) h.1,
    )

pub All-keep_all :
    (q p : Image → Bool) (xs : List Image)
    → All (λ x. q x ≡ true) xs
    → All (λ x. q x ≡ true) (keep p xs)
All-keep_all q p [] h = tt
All-keep_all q p (x ∷ xs) h = ground (arith, h.0, All-keep_all q p xs h.1)

pub All-first :
    (q : Image → Bool) (xs ys : List Image)
    → All (λ x. q x ≡ true) (xs ++ ys)
    → All (λ x. q x ≡ true) xs
All-first q [] ys h = tt
All-first q (x ∷ xs) ys h = (h.0, All-first q xs ys h.1)

pub started_some :
    (q : Image → Bool) (xs : List Image)
    → All (λ x. q x ≡ true) xs
    → All (λ x. q x ≡ true) (start_scans xs).0
unfolding start_scans
started_some q [] h = tt
started_some q (x ∷ xs) h = ground (arith, h.0, started_some q xs h.1)

pub started_le : (xs : List Image) → length (start_scans xs).0 ≤ length xs
unfolding start_scans
started_le [] = ground arith
started_le (x ∷ xs) = ground (arith, started_le xs)

pub kept_keys :
    (q : String → Bool) (xs : List Image)
    → All (λ (x : Image). q x.key ≡ true) xs
    → All (λ k. q k ≡ true) (map key_of xs)
kept_keys q [] h = tt
kept_keys q (x ∷ xs) h = (h.0, kept_keys q xs h.1)

pub length-keys : (xs : List Image) → length (map key_of xs) ≡ length xs
length-keys [] = refl
length-keys (x ∷ xs) = ap suc (length-keys xs)

pub All-less_one :
    (q : String → Bool) (before after : List String) (key : String)
    → All (λ k. q k ≡ true) (before ++ (key ∷ after))
    → All (λ k. q k ≡ true) (before ++ after)
All-less_one q [] after key h = h.1
All-less_one q (k ∷ before) after key h = (h.0, All-less_one q before after key h.1)

module _ (step : Backoff → ℕ × Backoff) (now : ℕ) (e : ScanEnd) where
  end_scan-kept :
      (d : DeltaState) (key k : String)
      → is_kept d k ≡ true
      → is_kept (end_scan step d now key e) k ≡ true
  end_scan-kept d key k h = ground (arith, lookup-end_scan step k key now e d, h)

  pub all_kept :
      (d : DeltaState) (key : String) (keys : List String)
      → All (λ k. is_kept d k ≡ true) keys
      → All (λ k. is_kept (end_scan step d now key e) k ≡ true) keys
  all_kept d key [] h = tt
  all_kept d key (k ∷ keys) h = (end_scan-kept d key k h.0, all_kept d key keys h.1)

update_image-nodes :
    (d : DeltaState) (key : String) (change : Image → Image)
    → (update_image d key change).nodes ≡ d.nodes
unfolding update_image
update_image-nodes d key change = elim (Option-cases (lookup key d.images)) [
  | inl gone ↦ rw (gone, update_image) refl
  | inr (img, there) ↦ rw (there, update_image) refl
]

pub end_scan-nodes :
    (step : Backoff → ℕ × Backoff) (d : DeltaState) (now : ℕ) (key : String) (e : ScanEnd)
    → (end_scan step d now key e).nodes ≡ d.nodes
unfolding end_scan set_image_scan_error
end_scan-nodes step d now key given_up = refl
end_scan-nodes step d now key succeeded = update_image-nodes d key _
end_scan-nodes step d now key (failed err) = update_image-nodes d key _

-- `Run` is safe: the state is well formed, there was no panic, `Run` waits for scans only in the phase of
-- `scanImages`, only for scans of images that are still there, and for as many as the limit on
-- concurrent scans allows; and during the initial delay there are no scans.
pub record IsSafe (cfg : ScanConfig) (s : Loop) : Type 0 where
  pub good : Inv s.controller.delta
  pub alive : s.phase ≢ crashed
  pub resting : (s.phase ≡ scanning) ⊎ (s.waited ≡ [])
  pub kept : All (λ k. is_kept s.controller.delta k ≡ true) s.waited
  pub limited : Within (concurrent_scans_number cfg s.controller.delta) (length s.waited)
  pub early : s.phase ≡ syncing → (s.waited ≡ []) × (s.loose ≡ [])

pub limit_of :
    (cfg : ScanConfig) (d : DeltaState) (m : ℕ)
    → cfg.max_concurrent_scans ≡ pos m
    → (n : ℕ) × (concurrent_scans_number cfg d ≡ pos n)
unfolding concurrent_scans_number
limit_of cfg d m e = elim (Bool-cases (node_count d == 1)) [
  | inl one ↦ (1, ground (arith, one))
  | inr more ↦ (m, ground (arith, more, e))
]

-- Without waited scans, the limit is no matter.
pub no_scans-Within :
    (cfg : ScanConfig) (d : DeltaState) (m : ℕ) (waited : List String)
    → cfg.max_concurrent_scans ≡ pos m
    → waited ≡ []
    → Within (concurrent_scans_number cfg d) (length waited)
no_scans-Within cfg d m waited e none_left =
    let (n, limit) = limit_of cfg d m e in
    subst (λ l. Within l (length waited)) (sym limit) (rw none_left (omega arith))

pub not_scanning :
    (p : Phase) (waited : List String)
    → takes_deltas p ≡ true
    → (p ≡ scanning) ⊎ (waited ≡ [])
    → waited ≡ []
not_scanning p waited t (inr e) = e
not_scanning p waited t (inl e) = let clash : false ≡ true = ap takes_deltas (sym e) ∙ t in cc

module _ (cfg : ScanConfig) (m : ℕ) (bounded : cfg.max_concurrent_scans ≡ pos m) where
  -- The controller is changed while `Run` waits for no scans.
  pub resting-IsSafe :
      (s : Loop) (c : Controller) (queue : List (Event × Object)) (p : Phase) (loose : List String)
      → s.waited ≡ []
      → Inv c.delta
      → p ≢ crashed
      → (p ≡ syncing → loose ≡ [])
      → IsSafe cfg (record s { controller = c; queue = queue; phase = p; loose = loose })
  resting-IsSafe s c queue p loose w good alive early = record {
    good = good;
    alive = alive;
    resting = inr w;
    kept = subst (All (λ k. is_kept c.delta k ≡ true)) (sym w) tt;
    limited = no_scans-Within cfg c.delta m s.waited bounded w;
    early = λ e. (w, early e);
  }
