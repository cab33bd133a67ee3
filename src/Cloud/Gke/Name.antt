-- ===== src/Cloud/Gke/Name.antt =====
-- cloudscan/gke/scanner.go: `parseInfoFromClusterName`, and the names that `NewScanner` accepts. A
-- text is the list of its code points.
use mathlib.Core.List.{reverse_aux}
use kvisor.Base.{
  ℕ, zero, List, [], ◌∷◌, ◌++◌, Bool, true, false, ◌==◌, if◌then◌else◌, any, Option, none, some,
  ◌≡◌, ◌≢◌, refl, arith, ap, ◌∙◌, sym, subst,
}
use kvisor.ImageScan.Runtime.{codes, split, split_from}

unfoldable pub info_of_parts : List (List ℕ) → List ℕ × List ℕ
info_of_parts (a ∷ project ∷ c ∷ location ∷ e ∷ f ∷ []) = (project, location)
info_of_parts _ = ([], [])

-- The project and the location.
unfoldable pub parse_info_from_cluster_name : List ℕ → List ℕ × List ℕ
unfolding split info_of_parts
parse_info_from_cluster_name cluster_name = info_of_parts (split cluster_name (codes "/"))

abbrev is_empty : List ℕ → Bool
is_empty [] = true
is_empty (c ∷ s) = false

-- The check of `NewScanner`.
abbrev accepted : List ℕ × List ℕ → Option (List ℕ × List ℕ)
accepted info = if is_empty info.0 then none else if is_empty info.1 then none else some info

-- The project and the location of a new scanner, or the error on the name.
unfoldable pub new_scanner : List ℕ → Option (List ℕ × List ℕ)
unfolding parse_info_from_cluster_name
new_scanner cluster_name = accepted (parse_info_from_cluster_name cluster_name)

abbrev slash : ℕ
slash = 47

-- A segment of a name.
abbrev IsSegment : List ℕ → Type 0
IsSegment s = any (λ c. c == slash) s ≡ false

split_from-segment :
    (part s rest : List ℕ)
    → IsSegment s
    → split_from (slash ∷ []) zero part (s ++ (slash ∷ rest))
      ≡ reverse_aux part s ∷ split_from (slash ∷ []) zero [] rest
unfolding split_from
split_from-segment part [] rest h = refl
split_from-segment part (c ∷ s) rest h = ground (arith, h, split_from-segment (c ∷ part) s rest)

split_from-last :
    (part s : List ℕ) → IsSegment s → split_from (slash ∷ []) zero part s ≡ reverse_aux part s ∷ []
unfolding split_from
split_from-last part [] h = refl
split_from-last part (c ∷ s) h = ground (arith, h, split_from-last (c ∷ part) s)

-- The names of clusters that the error message asks for.
abbrev pub cluster_name : List ℕ → List ℕ → List ℕ → List ℕ
cluster_name project location cluster =
    codes "projects"
    ++ (slash ∷ project
        ++ (slash ∷ codes "locations"
            ++ (slash ∷ location ++ (slash ∷ codes "clusters" ++ (slash ∷ cluster)))))

split-cluster_name :
    (project location cluster : List ℕ)
    → IsSegment project
    → IsSegment location
    → IsSegment cluster
    → split (cluster_name project location cluster) (codes "/")
      ≡ codes "projects" ∷ project ∷ codes "locations" ∷ location ∷ codes "clusters" ∷ cluster ∷ []
unfolding split
split-cluster_name project location cluster hp hl hc =
    let r4 : List ℕ = codes "clusters" ++ (slash ∷ cluster) in
    let r3 : List ℕ = location ++ (slash ∷ r4) in
    let r2 : List ℕ = codes "locations" ++ (slash ∷ r3) in
    let r1 : List ℕ = project ++ (slash ∷ r2) in
    split_from-segment [] (codes "projects") r1 refl
    ∙ ap (λ r. codes "projects" ∷ r)
        (split_from-segment [] project r2 hp
          ∙ ap (λ r. project ∷ r)
              (split_from-segment [] (codes "locations") r3 refl
                ∙ ap (λ r. codes "locations" ∷ r)
                    (split_from-segment [] location r4 hl
                      ∙ ap (λ r. location ∷ r)
                          (split_from-segment [] (codes "clusters") cluster refl
                            ∙ ap (λ r. codes "clusters" ∷ r) (split_from-last [] cluster hc)))))

info-cluster_name :
    (project location cluster : List ℕ)
    → IsSegment project
    → IsSegment location
    → IsSegment cluster
    → parse_info_from_cluster_name (cluster_name project location cluster) ≡ (project, location)
unfolding parse_info_from_cluster_name info_of_parts
info-cluster_name project location cluster hp hl hc =
    ap info_of_parts (split-cluster_name project location cluster hp hl hc)

-- A GKE scanner is made from a name of the form projects/P/locations/L/clusters/C, where P, L and C
-- have no slash, exactly if P and L are not empty, and then it has the project P and the location L.
pub new_scanner-cluster_name :
    (project location cluster : List ℕ)
    → IsSegment project
    → IsSegment location
    → IsSegment cluster
    → ((project ≢ []) × (location ≢ [])
        → new_scanner (cluster_name project location cluster) ≡ some (project, location))
      × ((new_scanner (cluster_name project location cluster) ≢ none)
          → (project ≢ []) × (location ≢ []))
unfolding new_scanner
new_scanner-cluster_name project location cluster hp hl hc =
    let info = info-cluster_name project location cluster hp hl hc in
    subst
      (λ (v : List ℕ × List ℕ).
        ((project ≢ []) × (location ≢ []) → accepted v ≡ some (project, location))
        × ((accepted v ≢ none) → (project ≢ []) × (location ≢ [])))
      (sym info) (by_parts project location)
  where
    by_parts :
        (p l : List ℕ)
        → ((p ≢ []) × (l ≢ []) → accepted (p, l) ≡ some (p, l))
          × ((accepted (p, l) ≢ none) → (p ≢ []) × (l ≢ []))
    by_parts [] l = ground arith
    by_parts (c ∷ p) [] = ground arith
    by_parts (c ∷ p) (d ∷ l) = ground arith
