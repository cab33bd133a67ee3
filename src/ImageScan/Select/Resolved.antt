-- ===== src/ImageScan/Select/Resolved.antt =====
-- What `findBestNodeAndMode` returns.
use mathlib.Core.List.{Perm}
use kvisor.Base.{
  ℤ, some, String, GoMap, keys, ◌≡◌, refl, sym, ◌∙◌, ◌≢◌, ◌⊎◌, inl, inr, List, [], ◌∷◌, Bool, true,
  false, any, has, has-keep, has-keys, ◌&&◌, arith,
}
use kvisor.ImageScan.State.{NodeUsage, Image, DeltaState}
use kvisor.ImageScan.State.Invariant.{Inv}
use kvisor.ImageScan.Select.{
  Choice, chosen, refused, panicked, no_candidates, empty_nodes, Mode, host_fs, remote, other_mode,
  ScanConfig, filter_castai_managed_nodes, best_node_in_mode, initial_mode, find_best_node_and_mode,
}
use kvisor.ImageScan.Select.Fits.{hosts}
use kvisor.ImageScan.Select.Search.{is_linux, is_managed, Known, FoundIn, best_node_in_mode-FoundIn}

keys-Known : (d : DeltaState) → Known d (keys d.nodes)
keys-Known d name e = sym (has-keys name d.nodes) ∙ e

any_and {ℓ} :
    {A : Type ℓ} (p h : A → Bool) (xs : List A)
    → any h xs ≡ false
    → any (λ x. p x && h x) xs ≡ false
any_and p h [] e = refl
any_and p h (x ∷ xs) e = ground (arith, any_and p h xs)

-- The outcome for an image: the chosen node has the requested resources left; in host file system
-- mode it holds the image, is managed by CAST AI and runs Linux; the mode is the initial one or the
-- remote one. Without candidates, no Linux node has the resources.
abbrev pub Resolved : ScanConfig → ℤ → ℤ → DeltaState → Image → Choice (String × Mode) → Type 0
Resolved cfg memory cpu d img (chosen (name, used)) =
    (hosts d memory cpu name ≡ true)
    × (used ≡ host_fs
        → (has name (keys img.nodes) ≡ true)
          × (is_managed d name ≡ true)
          × (is_linux d name ≡ true))
    × ((used ≡ initial_mode cfg img.last_scan_err) ⊎ (used ≡ remote))
Resolved cfg memory cpu d img (refused no_candidates) =
    any (λ name. is_linux d name && hosts d memory cpu name) (keys d.nodes) ≡ false
Resolved cfg memory cpu d img (refused empty_nodes) =
    (initial_mode cfg img.last_scan_err ≡ host_fs) × (img.nodes ≡ [])
Resolved cfg memory cpu d img panicked = ⊥

keys-nil {ℓ} : {V : Type ℓ} (m : GoMap V) → keys m ≡ [] → m ≡ []
keys-nil [] e = refl
keys-nil (entry ∷ m) e = cc

module _ (cfg : ScanConfig) (memory cpu : ℤ) (d : DeltaState) (img : Image) where
  all_nodes-Resolved :
      (mode : Mode)
      → mode ≢ host_fs
      → (mode ≡ initial_mode cfg img.last_scan_err) ⊎ (mode ≡ remote)
      → (result : Choice (String × Mode)) → FoundIn memory cpu d mode (keys d.nodes) result
      → Resolved cfg memory cpu d img result
  all_nodes-Resolved mode other from (chosen (name, used)) (fit, inl (same, listed, linux)) =
      (fit, λ e. absurd (other (sym same ∙ e)), rw same from)
  all_nodes-Resolved mode other from (chosen (name, used)) (fit, inr (is_remote, e)) =
      absurd (other e)
  all_nodes-Resolved mode other from (refused no_candidates) (unfit, _) = unfit
  all_nodes-Resolved mode other from (refused empty_nodes) p = absurd p
  all_nodes-Resolved mode other from panicked p = absurd p

  managed-Resolved :
      (names : List String)
      → host_fs ≡ initial_mode cfg img.last_scan_err
      → ((name : String)
          → has name names ≡ true
          → (has name (keys img.nodes) ≡ true) × (is_managed d name ≡ true))
      → (result : Choice (String × Mode)) → FoundIn memory cpu d host_fs names result
      → Resolved cfg memory cpu d img result
  managed-Resolved names from h (chosen (name, used)) (fit, inl (same, listed, linux)) =
      (fit, λ e. let (held, managed) = h name listed in (held, managed, linux), inl (same ∙ from))
  managed-Resolved names from h (chosen (name, used)) (fit, inr (is_remote, e)) =
      (fit, λ e. cc, inr is_remote)
  managed-Resolved names from h (refused no_candidates) (unfit, none_fits) =
      any_and (is_linux d) (hosts d memory cpu) (keys d.nodes) (none_fits refl)
  managed-Resolved names from h (refused empty_nodes) p = absurd p
  managed-Resolved names from h panicked p = absurd p

module _ (sort_slice : (NodeUsage → NodeUsage → Bool) → List NodeUsage → List NodeUsage)
    (sort_slice-perm : (less : NodeUsage → NodeUsage → Bool) (xs : List NodeUsage)
      → Perm (sort_slice less xs) xs)
    (cfg : ScanConfig) (d : DeltaState) (good : Inv d) (img : Image) (memory cpu : ℤ)
    (memory_parses : cfg.memory_request ≡ some memory)
    (cpu_parses : cfg.cpu_request ≡ some cpu) where
  found :
      (mode : Mode) (names : List String)
      → Known d names
      → FoundIn memory cpu d mode names (best_node_in_mode sort_slice cfg d mode names)
  found =
      best_node_in_mode-FoundIn sort_slice sort_slice-perm cfg d good memory cpu memory_parses
        cpu_parses

  elsewhere :
      (mode : Mode)
      → mode ≢ host_fs
      → (mode ≡ initial_mode cfg img.last_scan_err) ⊎ (mode ≡ remote)
      → Resolved cfg memory cpu d img (best_node_in_mode sort_slice cfg d mode (keys d.nodes))
  elsewhere mode other from =
      all_nodes-Resolved cfg memory cpu d img mode other from _
        (found mode (keys d.nodes) (keys-Known d))

  among_managed :
      (names managed : List String)
      → host_fs ≡ initial_mode cfg img.last_scan_err
      → keys img.nodes ≡ names
      → filter_castai_managed_nodes d names ≡ managed
      → Resolved cfg memory cpu d img (best_node_in_mode sort_slice cfg d host_fs managed)
  unfolding filter_castai_managed_nodes
  among_managed names managed from held kept =
      managed-Resolved cfg memory cpu d img managed from
        (λ name e. let (a, b) = split name e in (rw held a, b)) _
        (found host_fs managed (λ name e. ground (arith, split name e)))
    where
      split :
          (name : String)
          → has name managed ≡ true
          → (has name names ≡ true) × (is_managed d name ≡ true)
      split name e = has-keep (is_managed d) name names (rw kept e)

  by_managed :
      (names managed : List String)
      → host_fs ≡ initial_mode cfg img.last_scan_err
      → keys img.nodes ≡ names
      → filter_castai_managed_nodes d names ≡ managed
      → Resolved cfg memory cpu d img (elim managed as (λ _. Choice (String × Mode)) [
        | [] ↦ best_node_in_mode sort_slice cfg d remote (keys d.nodes)
        | name ∷ rest ↦ best_node_in_mode sort_slice cfg d host_fs (name ∷ rest)
      ])
  by_managed names [] from held kept = elsewhere remote (λ h. cc) (inr refl)
  by_managed names (name ∷ rest) from held kept = among_managed names (name ∷ rest) from held kept

  resolve-Resolved :
      (mode : Mode)
      → initial_mode cfg img.last_scan_err ≡ mode
      → Resolved cfg memory cpu d img (find_best_node_and_mode sort_slice cfg d img)
  unfolding find_best_node_and_mode
  resolve-Resolved remote e =
      rw (e, find_best_node_and_mode) (elsewhere remote (λ h. cc) (inr refl))
  resolve-Resolved (other_mode m) e =
      rw (e, find_best_node_and_mode) (elsewhere (other_mode m) (λ h. cc) (inl (sym e)))
  resolve-Resolved host_fs e = rw (e, find_best_node_and_mode) (by_nodes (keys img.nodes) refl)
    where
      by_nodes :
          (names : List String)
          → keys img.nodes ≡ names
          → Resolved cfg memory cpu d img (elim names as (λ _. Choice (String × Mode)) [
            | [] ↦ refused empty_nodes
            | name ∷ others ↦ elim (filter_castai_managed_nodes d (name ∷ others)) [
              | [] ↦ best_node_in_mode sort_slice cfg d remote (keys d.nodes)
              | managed ∷ rest ↦ best_node_in_mode sort_slice cfg d host_fs (managed ∷ rest)
            ]
          ])
      by_nodes [] h = (e, keys-nil img.nodes h)
      by_nodes (name ∷ others) h =
          by_managed (name ∷ others) (filter_castai_managed_nodes d (name ∷ others)) (sym e) h refl

  -- In a well-formed state, and whatever `sort.Slice` makes of a list, as long as it only permutes
  -- it, `findBestNodeAndMode` does not panic if the requests of memory and CPU in the configuration parse.
  -- The node that it chooses has the requested memory
  -- and CPU left; in host file system mode it also holds the image, is managed by CAST AI and runs
  -- Linux; the mode is remote or the initial one, which is remote if the last scan failed for want
  -- of a layer and the configured one otherwise. If there are no candidates, then no Linux node
  -- has the resources left; if the image's nodes are reported empty, it has none and the initial
  -- mode is the host file system.
  pub find_best_node_and_mode-Resolved :
      Resolved cfg memory cpu d img (find_best_node_and_mode sort_slice cfg d img)
  find_best_node_and_mode-Resolved = resolve-Resolved (initial_mode cfg img.last_scan_err) refl
