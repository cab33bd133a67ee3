-- ===== src/ImageScan/State.antt =====
-- imagescan/delta.go: the state of `deltaState`, and its reads. A time is a number, and the zero
-- time is 0; amounts (`inf.Dec`) are integers of a common scale; a set of pod UIDs is a map to the
-- empty struct. The queue is the argument of the controller's steps.
pub mod Usage
pub mod Pods
pub mod Invariant
pub mod Preserve
pub mod Events
use Prim.Native.String.{◌++◌}
use kvisor.Base.{
  ℕ, ℤ, ◌+ℤ◌, ◌-ℤ◌, pos, leb_ℤ, String, GoMap, GoSet, lookup, values, keep, List, [], ◌∷◌, length,
  Option, none, some, Bool, true, false, not, ◌&&◌, if◌then◌else◌, eq_str, ◌==◌,
}
use kvisor.Kube.Object.{Container, Pod, PodSpec}
use kvisor.ImageScan.Runtime.{Runtime}

-- `pod`.
pub record PodUsage : Type 0 where
  pub id : String
  pub request_cpu : ℤ
  pub request_memory : ℤ

-- `node`.
pub record NodeUsage : Type 0 where
  pub name : String
  pub architecture : String
  pub os : String
  pub allocatable_mem : ℤ
  pub allocatable_cpu : ℤ
  pub pods : GoMap PodUsage
  pub castai_managed : Bool

-- The errors that the controller tells apart: `errPrivateImage`, `errImageScanLayerNotFound`, others.
pub data ScanError : Type 0 where
  private_image layer_not_found : ScanError
  other_error : String → ScanError

-- `wait.Backoff`, as `newImage` fills it in; durations are in seconds.
pub record Backoff : Type 0 where
  pub duration : ℕ
  pub factor : ℕ
  pub steps : ℕ

-- `image`; the maps of owners and nodes lead to the pods that use the image.
pub record Image : Type 0 where
  pub key : String
  pub id : String
  pub name : String
  pub architecture : String
  pub os : String
  pub container_runtime : Runtime
  pub owners : GoMap GoSet
  pub nodes : GoMap GoSet
  pub scanned : Bool
  pub last_scan_err : Option ScanError
  pub failures : ℕ
  pub retry_backoff : Backoff
  pub next_scan : ℕ
  pub last_remote_sync_at : ℕ
  pub owner_changed_at : ℕ
  pub resources_updated_at : ℕ

pub record DeltaState : Type 0 where
  pub images : GoMap Image
  pub nodes : GoMap NodeUsage

abbrev pub new_delta_state : DeltaState
new_delta_state = record { images = []; nodes = [] }

pub record Platform : Type 0 where
  pub architecture : String
  pub os : String

abbrev pub default_platform : Platform
default_platform = record { architecture = "amd64"; os = "linux" }

unfoldable pub get_pod_platform : DeltaState → Pod → Platform
get_pod_platform d pod = elim (lookup pod.spec.node_name d.nodes) [
  | none ↦ default_platform
  | some n ↦
      if not (eq_str n.architecture "") && not (eq_str n.os "")
      then record { architecture = n.architecture; os = n.os }
      else default_platform
]

-- The loops of `availableMemory` and `availableCPU`, from what is left so far.
pub subtract_requests : (PodUsage → ℤ) → ℤ → List PodUsage → ℤ
subtract_requests request left [] = left
subtract_requests request left (p ∷ pods) = subtract_requests request (left -ℤ request p) pods

unfoldable pub available_memory : NodeUsage → ℤ
unfolding subtract_requests ◌+ℤ◌ ◌-ℤ◌
available_memory n =
    subtract_requests (λ p. p.request_memory) (pos 0 +ℤ n.allocatable_mem) (values n.pods)

unfoldable pub available_cpu : NodeUsage → ℤ
unfolding subtract_requests ◌+ℤ◌ ◌-ℤ◌
available_cpu n =
    subtract_requests (λ p. p.request_cpu) (pos 0 +ℤ n.allocatable_cpu) (values n.pods)

-- The loops of `sumPodRequestMemory` and `sumPodRequestCPU`: init containers do not count.
pub sum_requests : (Container → ℤ) → ℤ → List Container → ℤ
sum_requests request total [] = total
sum_requests request total (c ∷ containers) = sum_requests request (total +ℤ request c) containers

unfoldable pub sum_pod_request_memory : PodSpec → ℤ
unfolding sum_requests ◌+ℤ◌
sum_pod_request_memory spec = sum_requests (λ c. c.request_memory) (pos 0) spec.containers

unfoldable pub sum_pod_request_cpu : PodSpec → ℤ
unfolding sum_requests ◌+ℤ◌
sum_pod_request_cpu spec = sum_requests (λ c. c.request_cpu) (pos 0) spec.containers

abbrev pub is_unused : Image → Bool
is_unused img = length img.nodes == 0 && length img.owners == 0

unfoldable pub get_images : DeltaState → List Image
get_images d = values d.images

unfoldable pub node_count : DeltaState → ℕ
node_count d = length d.nodes
