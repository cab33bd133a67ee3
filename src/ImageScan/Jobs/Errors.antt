-- ===== src/ImageScan/Jobs/Errors.antt =====
-- imagescan/errors.go: what the text of an error says of the image.
use kvisor.Base.{
  ℕ, String, GoMap, insert, lookup, List, [], ◌∷◌, map, Option, none, some, Bool, ◌||◌,
  if◌then◌else◌, eq_str, any, keep,
}
use kvisor.ImageScan.State.{ScanError, private_image, layer_not_found, other_error}
use kvisor.ImageScan.Runtime.{codes, starts_with, split}
use kvisor.ImageScan.Jobs.Spec.{join}

-- `strings.Contains(s, part)`.
unfoldable pub contains : List ℕ → List ℕ → Bool
contains [] part = starts_with part []
contains (c ∷ s) part = starts_with part (c ∷ s) || contains s part

abbrev pub private_parts : List String
private_parts = "unauthorized" ∷ "manifest_unknown" ∷ "denied" ∷ "connection refused" ∷ []

-- `Log`.
pub record Log : Type 0 where
  pub timestamp : String
  pub level : String
  pub message : String
  pub component : String

-- The loop over the groups of a match, the first of which is the whole match.
abbrev named_groups : List (String × String) → GoMap String
named_groups [] = []
named_groups (whole ∷ groups) = name_all [] groups
  where
    name_all : GoMap String → List (String × String) → GoMap String
    name_all result [] = result
    name_all result ((name, text) ∷ rest) =
        name_all (if eq_str name "" then result else insert name text result) rest

abbrev get : String → GoMap String → String
get k m = elim (lookup k m) [ none ↦ "" | some v ↦ v ]

-- `to_lower` is `strings.ToLower`; `find_submatch` is `re.FindStringSubmatch`, each group with its
-- name of `re.SubexpNames`.
module _ (to_lower : List ℕ → List ℕ)
    (find_submatch : List ℕ → Option (List (String × String))) where
  unfoldable pub is_private_image_error : String → Bool
  unfolding contains
  is_private_image_error err =
      any (λ part. contains (to_lower (codes err)) (codes part)) private_parts

  unfoldable pub is_host_fs_error : String → Bool
  unfolding contains
  is_host_fs_error err =
      contains (codes err) (codes "no such file or directory")
      || contains (codes err) (codes "failed to get the layer")

  unfoldable pub parse_lines : List (List ℕ) → List Log
  parse_lines [] = []
  parse_lines (line ∷ lines) =
      let logs = parse_lines lines in
      elim (find_submatch line) [
        | none ↦ logs
        | some groups ↦
            let result = named_groups groups in
            record {
              timestamp = get "Timestamp" result;
              level = get "Level" result;
              message = get "Message" result;
              component = get "Component" result;
            }
            ∷ logs
      ]

  unfoldable pub parse_logrus_log : String → List Log
  unfolding parse_lines split
  parse_logrus_log message = parse_lines (split (codes message) (codes "\n"))

  unfoldable pub parse_error_from_log : String → ScanError
  unfolding is_private_image_error is_host_fs_error parse_logrus_log join
  parse_error_from_log err =
      if is_private_image_error err
      then private_image
      else if is_host_fs_error err
      then layer_not_found
      else elim (keep (λ log. eq_str log.level "error" || eq_str log.level "fatal")
          (parse_logrus_log err)) [
            | [] ↦ other_error err
            | log ∷ logs ↦ other_error (join (map (λ l. l.message) (log ∷ logs)) "\n")
          ]
