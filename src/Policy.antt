-- ===== src/Policy.antt =====
-- policy/: the admission webhook (enforcer.go, filter.go), which denies an object if it fails rules
-- that the telemetry response or the configured bundles enforce.
pub mod OneObject
pub mod Denied
pub mod Namespaces
use kvisor.Base.{
  ℕ, String, GoMap, GoSet, insert, keys, List, [], ◌∷◌, ◌++◌, Option, none, some, Bool, true, false,
  ◌⊎◌, inl, inr, ltb, length, if◌then◌else◌, eq_str, has, not, keep,
}
use kvisor.Kube.Object.{Object, get_meta}
use kvisor.Linter.RuleSet.{
  rules, host_isolation_bundle, good_practices_bundle, ports_bundle, mount_points_bundle,
  dangling_resources_bundle, rbac_bundle,
}
use kvisor.Linter.Run.{Check, LinterCheck, run_with_rules}

pub record Enforcer : Type 0 where
  pub enforced_rules : List String
  pub bundle_rules : List String

-- The `switch` on the name of a bundle; any other name has no rules.
unfoldable pub bundle_named : String → GoMap ℕ
bundle_named bundle =
    if eq_str bundle "host-isolation"
    then host_isolation_bundle
    else if eq_str bundle "good-practices"
    then good_practices_bundle
    else if eq_str bundle "ports"
    then ports_bundle
    else if eq_str bundle "mount-points"
    then mount_points_bundle
    else if eq_str bundle "dangling-resources"
    then dangling_resources_bundle
    else if eq_str bundle "rbac"
    then rbac_bundle
    else []

-- `rules[key] = struct{}{}` for each key.
unfoldable pub add_keys : GoSet → List String → GoSet
add_keys set [] = set
add_keys set (k ∷ ks) = add_keys (insert k tt set) ks

unfoldable pub bundle_set : GoSet → List String → GoSet
unfolding bundle_named add_keys
bundle_set set [] = set
bundle_set set (bundle ∷ bundles) = bundle_set (add_keys set (keys (bundle_named bundle))) bundles

-- `NewEnforcer`.
unfoldable pub new_enforcer : List String → Enforcer
unfolding bundle_set
new_enforcer bundles = record { enforced_rules = []; bundle_rules = keys (bundle_set [] bundles) }

-- The observer of `TelemetryObserver`, on the rules of a response.
unfoldable pub observe : Enforcer → List String → Enforcer
observe e enforced = record e { enforced_rules = enforced }

-- `lo.Uniq`: the first occurrence of each name, given the names seen before.
unfoldable pub uniq : List String → List String → List String
uniq seen [] = []
uniq seen (x ∷ xs) = let rest = uniq (x ∷ seen) xs in if has x seen then uniq seen xs else x ∷ rest

-- `rules`.
unfoldable pub enforcer_rules : Enforcer → List String
unfolding uniq
enforcer_rules e = uniq [] (e.enforced_rules ++ e.bundle_rules)

-- The message of an allowing response, by its arguments.
pub data Reason : Type 0 where
  no_enforced_rules no_rules_on_object : Reason
  kind_not_linted passed_all_checks : String → Reason
  has_owners : String → ℕ → Reason

-- The error of an erring response, by its arguments.
pub data Problem : Type 0 where
  undecodable : String → Problem
  unexpected_checks : ℕ → Problem

pub data Response : Type 0 where
  allowed : Reason → Response
  errored : Problem → Response
  denied : String → List String → Response

-- `skipObjectsWithOwners`.
unfoldable pub skip_objects_with_owners : Object → Option Reason
skip_objects_with_owners obj =
    if ltb 0 (length (get_meta obj).owner_references)
    then some (has_owners (get_meta obj).name (length (get_meta obj).owner_references))
    else none

-- The kinds of the `switch`, each of which is decoded into its own type.
abbrev pub linted_kinds : List String
linted_kinds =
    "Pod" ∷ "Deployment" ∷ "ReplicaSet" ∷ "StatefulSet" ∷ "CronJob" ∷ "Job" ∷ "Role" ∷ "ClusterRole"
    ∷ "RoleBinding" ∷ "ClusterRoleBinding" ∷ "NetworkPolicy" ∷ "Ingress" ∷ "Namespace" ∷ "Service"
    ∷ []

-- `decode` is `json.Unmarshal` into the type of a kind; `sort_strings` is `sort.Strings`; `ignores`
-- and the checks belong to the linter.
module _ {Raw : Type 0} (decode : String → Raw → String ⊎ Object)
    (sort_strings : List String → List String) (ignores : GoMap String → String → Bool)
    (checks : List Check) where
  -- The response to the failed rules of the object.
  abbrev pub verdict_on : String → List String → Response
  verdict_on kind [] = allowed (passed_all_checks kind)
  verdict_on kind (rule ∷ more) = denied kind (sort_strings (rule ∷ more))

  -- The response to what the linter found.
  unfoldable pub respond : String → List LinterCheck → Response
  unfolding rules
  respond kind [] = allowed no_rules_on_object
  respond kind (check ∷ []) = verdict_on kind (rules check.failed)
  respond kind (check ∷ other ∷ more) = errored (unexpected_checks (length (check ∷ other ∷ more)))

  -- `Handle` on an object that was decoded.
  unfoldable pub review : String → List String → Object → Response
  unfolding skip_objects_with_owners run_with_rules respond
  review kind enforced obj = elim (skip_objects_with_owners obj) [
    | some reason ↦ allowed reason
    | none ↦ respond kind (run_with_rules ignores checks (obj ∷ []) enforced)
  ]

  -- `Handle`, on the kind and the bytes of a request.
  unfoldable pub handle : Enforcer → String → Raw → Response
  unfolding enforcer_rules review
  handle e kind raw = elim (enforcer_rules e) [
    | [] ↦ allowed no_enforced_rules
    | rule ∷ more ↦
        if has kind linted_kinds
        then elim (decode kind raw) [
          | inl err ↦ errored (undecodable err)
          | inr obj ↦ review kind (rule ∷ more) obj
        ]
        else allowed (kind_not_linted kind)
  ]
