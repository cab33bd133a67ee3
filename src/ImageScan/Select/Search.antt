-- ===== src/ImageScan/Select/Search.antt =====
-- The search for a node in a mode, with its fallback to remote mode.
use mathlib.Core.List.{Perm}
use kvisor.Base.{
  ℤ, String, lookup, keys, ◌≡◌, refl, sym, ◌∙◌, ◌⊎◌, inl, inr, List, [], ◌∷◌, none, some, Bool,
  true, false, any, has, has-keep, any-keep, is_some, ◌&&◌, eq_str, keep, arith,
}
use kvisor.ImageScan.State.{NodeUsage, DeltaState}
use kvisor.ImageScan.State.Invariant.{Inv}
use kvisor.ImageScan.Select.{
  Choice, chosen, refused, panicked, no_candidates, empty_nodes, Mode, host_fs, remote, other_mode,
  ScanConfig, filter_windows_nodes, find_best_node, best_node_in_mode, in_mode,
}
use kvisor.ImageScan.Select.Fits.{hosts, Picks, find_best_node-Picks}

abbrev pub is_linux : DeltaState → String → Bool
is_linux d name = elim (lookup name d.nodes) [ none ↦ false | some n ↦ eq_str n.os "linux" ]

abbrev pub is_managed : DeltaState → String → Bool
is_managed d name = elim (lookup name d.nodes) [ none ↦ false | some n ↦ n.castai_managed ]

-- The names are keys of the map of nodes.
abbrev pub Known : DeltaState → List String → Type 0
Known d names = (name : String) → has name names ≡ true → is_some (lookup name d.nodes) ≡ true

filter_windows_nodes-Known :
    (d : DeltaState) (names : List String)
    → Known d names
    → filter_windows_nodes d names ≡ some (keep (is_linux d) names)
unfolding filter_windows_nodes
filter_windows_nodes-Known d [] h = refl
filter_windows_nodes-Known d (name ∷ names) h =
    ground
      (arith, filter_windows_nodes-Known d names (λ x e. h x (ground arith)), h name (ground arith))

-- The outcome of the search among `names` in a mode.
abbrev pub FoundIn : ℤ → ℤ → DeltaState → Mode → List String → Choice (String × Mode) → Type 0
FoundIn memory cpu d mode names (chosen (name, used)) =
    (hosts d memory cpu name ≡ true)
    × (((used ≡ mode) × (has name names ≡ true) × (is_linux d name ≡ true))
        ⊎ ((used ≡ remote) × (mode ≡ host_fs)))
FoundIn memory cpu d mode names (refused no_candidates) =
    (any (λ name. is_linux d name && hosts d memory cpu name) names ≡ false)
    × (mode ≡ host_fs → any (hosts d memory cpu) (keys d.nodes) ≡ false)
FoundIn memory cpu d mode names (refused empty_nodes) = ⊥
FoundIn memory cpu d mode names panicked = ⊥

module _ (sort_slice : (NodeUsage → NodeUsage → Bool) → List NodeUsage → List NodeUsage)
    (sort_slice-perm : (less : NodeUsage → NodeUsage → Bool) (xs : List NodeUsage)
      → Perm (sort_slice less xs) xs)
    (cfg : ScanConfig) (d : DeltaState) (good : Inv d) (memory cpu : ℤ)
    (memory_parses : cfg.memory_request ≡ some memory)
    (cpu_parses : cfg.cpu_request ≡ some cpu) where
  picks :
      (names : List String)
      → Picks d names memory cpu (find_best_node sort_slice d names memory cpu)
  picks names = find_best_node-Picks sort_slice sort_slice-perm d names memory cpu good

  unfit :
      (names : List String)
      → any (hosts d memory cpu) (keep (is_linux d) names) ≡ false
      → any (λ name. is_linux d name && hosts d memory cpu name) names ≡ false
  unfit names p = sym (any-keep (hosts d memory cpu) (is_linux d) names) ∙ p

  -- The second search, in remote mode, among all nodes.
  fallback-FoundIn :
      (names : List String) (second : Choice String)
      → any (λ name. is_linux d name && hosts d memory cpu name) names ≡ false
      → Picks d (keys d.nodes) memory cpu second
      → FoundIn memory cpu d host_fs names (in_mode remote second)
  fallback-FoundIn names (chosen name) e p = (p.1, inr (refl, refl))
  fallback-FoundIn names (refused no_candidates) e p = (e, λ _. p)
  fallback-FoundIn names (refused empty_nodes) e p = p
  fallback-FoundIn names panicked e p = p

  search-FoundIn :
      (mode : Mode) (names : List String) (result : Choice String)
      → Picks d (keep (is_linux d) names) memory cpu result
      → find_best_node sort_slice d (keep (is_linux d) names) memory cpu ≡ result
      → filter_windows_nodes d names ≡ some (keep (is_linux d) names)
      → FoundIn memory cpu d mode names (best_node_in_mode sort_slice cfg d mode names)
  unfolding best_node_in_mode
  search-FoundIn mode names (chosen name) p e f =
      let (listed, linux) = has-keep (is_linux d) name names p.0 in
      rw (f, memory_parses, cpu_parses, best_node_in_mode) (rw e (p.1, inl (refl, listed, linux)))
  search-FoundIn host_fs names (refused no_candidates) p e f =
      rw (f, memory_parses, cpu_parses, best_node_in_mode)
        (rw e (fallback-FoundIn names _ (unfit names p) (picks (keys d.nodes))))
  search-FoundIn remote names (refused no_candidates) p e f =
      rw (f, memory_parses, cpu_parses, best_node_in_mode) (rw e (unfit names p, λ h. cc))
  search-FoundIn (other_mode m) names (refused no_candidates) p e f =
      rw (f, memory_parses, cpu_parses, best_node_in_mode) (rw e (unfit names p, λ h. cc))
  search-FoundIn mode names (refused empty_nodes) p e f = absurd p
  search-FoundIn mode names panicked p e f = absurd p

  pub best_node_in_mode-FoundIn :
      (mode : Mode) (names : List String)
      → Known d names
      → FoundIn memory cpu d mode names (best_node_in_mode sort_slice cfg d mode names)
  best_node_in_mode-FoundIn mode names known =
      search-FoundIn mode names _ (picks (keep (is_linux d) names)) refl
        (filter_windows_nodes-Known d names known)
