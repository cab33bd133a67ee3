-- ===== src/ImageScan/Select.antt =====
-- Which node scans an image, and in which mode: `findBestNode` and `filterCastAIManagedNodes` of
-- imagescan/delta.go, `findBestNodeAndMode` and `filterWindowsNodes` of imagescan/controller.go.
pub mod Fits
pub mod Search
pub mod Resolved
use kvisor.Base.{
  ℤ, leb_ℤ, String, lookup, keys, List, [], ◌∷◌, map, Option, none, some, Bool, true, false, not,
  ◌&&◌, if◌then◌else◌, eq_str, length, ◌==◌, keep,
}
use kvisor.ImageScan.State.{
  NodeUsage, ScanError, layer_not_found, Image, DeltaState, available_memory, available_cpu,
}

-- The modes that are told apart: `ModeHostFS`, `ModeRemote` and the others.
pub data Mode : Type 0 where
  host_fs remote : Mode
  other_mode : String → Mode

-- The settings of imagescan that the code below reads. A request is what `resource.ParseQuantity` makes
-- of its text: `none` if it fails, and then `resource.MustParse` panics.
pub record ScanConfig : Type 0 where
  pub mode : Mode
  pub memory_request : Option ℤ
  pub cpu_request : Option ℤ
  pub scan_interval : ℤ
  pub max_concurrent_scans : ℤ

pub data SelectError : Type 0 where
  no_candidates empty_nodes : SelectError

-- A result, an error, or a panic.
pub data Choice (A : Type 0) : Type 0 where
  chosen : A → Choice A
  refused : SelectError → Choice A
  panicked : Choice A

unfoldable pub filter_castai_managed_nodes : DeltaState → List String → List String
filter_castai_managed_nodes d names =
    keep (λ name. elim (lookup name d.nodes) [ none ↦ false | some n ↦ n.castai_managed ]) names

-- `none` is the panic at a name that is not in the map.
unfoldable pub filter_windows_nodes : DeltaState → List String → Option (List String)
filter_windows_nodes d [] = some []
filter_windows_nodes d (name ∷ names) = elim (lookup name d.nodes) [
  | none ↦ none
  | some n ↦ elim (filter_windows_nodes d names) [
    | none ↦ none
    | some filtered ↦ some (if eq_str n.os "linux" then name ∷ filtered else filtered)
  ]
]

abbrev pub fits : ℤ → ℤ → NodeUsage → Bool
fits memory cpu n = leb_ℤ memory (available_memory n) && leb_ℤ cpu (available_cpu n)

unfoldable pub candidates : DeltaState → ℤ → ℤ → List String → List NodeUsage
candidates d memory cpu [] = []
candidates d memory cpu (name ∷ names) = elim (lookup name d.nodes) [
  | none ↦ candidates d memory cpu names
  | some n ↦
      if fits memory cpu n then n ∷ candidates d memory cpu names else candidates d memory cpu names
]

-- The comparison that is given to `sort.Slice`.
abbrev pub more_cpu : NodeUsage → NodeUsage → Bool
more_cpu m n = not (leb_ℤ (available_cpu m) n.allocatable_cpu)

-- The configured mode, or remote if a scan failed for want of a layer.
abbrev pub initial_mode : ScanConfig → Option ScanError → Mode
initial_mode cfg (some layer_not_found) = remote
initial_mode cfg _ = cfg.mode

abbrev pub in_mode : Mode → Choice String → Choice (String × Mode)
in_mode mode (chosen name) = chosen (name, mode)
in_mode mode (refused e) = refused e
in_mode mode panicked = panicked

-- `sort_slice` is `sort.Slice`.
module _ (sort_slice : (NodeUsage → NodeUsage → Bool) → List NodeUsage → List NodeUsage) where
  unfoldable pub find_best_node : DeltaState → List String → ℤ → ℤ → Choice String
  unfolding candidates
  find_best_node d names memory cpu =
      if length d.nodes == 0
      then refused no_candidates
      else if length (candidates d memory cpu names) == 0
      then refused no_candidates
      else elim (sort_slice more_cpu (candidates d memory cpu names)) [
        | [] ↦ panicked
        | n ∷ _ ↦ chosen n.name
      ]

  -- The end of `findBestNodeAndMode`, from the resolved mode and nodes.
  unfoldable pub best_node_in_mode :
      ScanConfig → DeltaState → Mode → List String → Choice (String × Mode)
  unfolding filter_windows_nodes find_best_node
  best_node_in_mode cfg d mode names = elim (filter_windows_nodes d names) [
    | none ↦ panicked
    | some filtered ↦ elim cfg.memory_request [
      | none ↦ panicked
      | some memory ↦ elim cfg.cpu_request [
        | none ↦ panicked
        | some cpu ↦ elim (find_best_node d filtered memory cpu) [
          | refused no_candidates ↦ elim mode [
            | host_fs ↦ in_mode remote (find_best_node d (keys d.nodes) memory cpu)
            | _ ↦ refused no_candidates
          ]
          | result ↦ in_mode mode result
        ]
      ]
    ]
  ]

  unfoldable pub find_best_node_and_mode : ScanConfig → DeltaState → Image → Choice (String × Mode)
  unfolding filter_castai_managed_nodes best_node_in_mode
  find_best_node_and_mode cfg d img = elim (initial_mode cfg img.last_scan_err) [
    | host_fs ↦ elim (keys img.nodes) [
      | [] ↦ refused empty_nodes
      | name ∷ names ↦ elim (filter_castai_managed_nodes d (name ∷ names)) [
        | [] ↦ best_node_in_mode cfg d remote (keys d.nodes)
        | managed ∷ others ↦ best_node_in_mode cfg d host_fs (managed ∷ others)
      ]
    ]
    | mode ↦ best_node_in_mode cfg d mode (keys d.nodes)
  ]
