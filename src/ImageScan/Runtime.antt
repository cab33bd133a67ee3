-- ===== src/ImageScan/Runtime.antt =====
-- imagescan/delta.go: `getContainerRuntime`, with `strings.Split` on "://".
use Prim.Native.Char.{code}
use kvisor.Base.{
  ℕ, zero, suc, ◌-◌, String, List, [], ◌∷◌, Bool, true, false, ◌==◌, if◌then◌else◌, length,
}
use mathlib.Core.List.{reverse}

-- The code points of a text.
abbrev pub codes : String → List ℕ
codes String.[] = []
codes (String.◌∷◌ c s) = code c ∷ codes s

abbrev pub starts_with : List ℕ → List ℕ → Bool
starts_with [] s = true
starts_with (c ∷ sep) [] = false
starts_with (c ∷ sep) (d ∷ s) = if c == d then starts_with sep s else false

-- `skip` characters of a separator are still to be passed over; `part` is the current part,
-- reversed.
unfoldable pub split_from : List ℕ → ℕ → List ℕ → List ℕ → List (List ℕ)
split_from sep skip part [] = reverse part ∷ []
split_from sep (suc skip) part (c ∷ s) = split_from sep skip part s
split_from sep zero part (c ∷ s) =
    let cut = split_from sep (length sep - 1) [] s in
    let go_on = split_from sep zero (c ∷ part) s in
    if starts_with sep (c ∷ s) then reverse part ∷ cut else go_on

-- `strings.Split(s, sep)` for a separator that is not empty.
unfoldable pub split : List ℕ → List ℕ → List (List ℕ)
unfolding split_from
split s sep = split_from sep zero [] s

-- `imgcollectorconfig.Runtime`: "docker", "containerd" or "".
pub data Runtime : Type 0 where
  runtime_none runtime_docker runtime_containerd : Runtime

abbrev same_text : List ℕ → List ℕ → Bool
same_text [] [] = true
same_text (c ∷ s) (d ∷ t) = if c == d then same_text s t else false
same_text _ _ = false

unfoldable pub runtime_of : List ℕ → Runtime
runtime_of scheme =
    if same_text scheme (codes "docker")
    then runtime_docker
    else if same_text scheme (codes "containerd")
    then runtime_containerd
    else runtime_none

unfoldable pub runtime_of_parts : List (List ℕ) → Runtime
unfolding runtime_of
runtime_of_parts (scheme ∷ rest ∷ []) = runtime_of scheme
runtime_of_parts _ = runtime_none

unfoldable pub get_container_runtime : String → Runtime
unfolding split runtime_of_parts
get_container_runtime container_id = runtime_of_parts (split (codes container_id) (codes "://"))
