-- ===== src/Linter/Run.antt =====
-- linters/kubelinter/kubelinter.go: `run` and `runKubeLinter`, which turn the diagnostics of the
-- checks into one `LinterCheck` for each object.
pub mod Verdict
use kvisor.Base.{
  ℕ, String, GoMap, lookup, insert, values, List, [], ◌∷◌, Option, none, some, Bool, not, ◌&&◌,
  if◌then◌else◌, eq_str, has, map,
}
use mathlib.Core.List.{◌++◌}
use kvisor.Kube.Object.{Object, get_meta, get_uid}
use kvisor.Linter.RuleSet.{rule_mask, add_rule}

-- `instantiatedcheck.InstantiatedCheck`: the name, the kinds it applies to, and the check itself,
-- which is given the objects of the context and one object, and returns the messages.
pub record Check : Type 0 where
  pub name : String
  pub matches : Object → Bool
  pub func : List Object → Object → List String

-- `diagnostic.WithContext`.
pub record Report : Type 0 where
  pub message : String
  pub check : String
  pub object : Object

-- `castai.LinterCheck`.
pub record LinterCheck : Type 0 where
  pub resource_id : String
  pub passed : ℕ
  pub failed : ℕ

-- `ignores` is `ignore.ObjectForCheck`, on the annotations of an object and the name of a check.
module _ (ignores : GoMap String → String → Bool) where
  -- The reports of one check on one object.
  unfoldable pub check_reports : List String → List Object → Object → Check → List Report
  check_reports enforced objects obj check =
      if has check.name enforced
        && (check.matches obj && not (ignores (get_meta obj).annotations check.name))
      then elim (check.func objects obj) [
        | [] ↦ record { message = ""; check = check.name; object = obj } ∷ []
        | m ∷ ms ↦ map (λ d. record { message = d; check = check.name; object = obj }) (m ∷ ms)
      ]
      else []

  unfoldable pub object_reports : List Check → List String → List Object → Object → List Report
  unfolding check_reports
  object_reports [] enforced objects obj = []
  object_reports (check ∷ checks) enforced objects obj =
      check_reports enforced objects obj check ++ object_reports checks enforced objects obj

  -- The reports of `runKubeLinter` on the objects that are still to be visited.
  unfoldable pub reports_of : List Check → List String → List Object → List Object → List Report
  unfolding object_reports
  reports_of checks enforced objects [] = []
  reports_of checks enforced objects (obj ∷ rest) =
      object_reports checks enforced objects obj ++ reports_of checks enforced objects rest

  unfoldable pub run_kube_linter : List Check → List String → List Object → List Report
  unfolding reports_of
  run_kube_linter checks enforced objects = reports_of checks enforced objects objects

-- The entry of an object, made at its first report.
abbrev pub entry_of : String → GoMap LinterCheck → LinterCheck
entry_of uid resources = elim (lookup uid resources) [
  | none ↦ record { resource_id = uid; passed = 0; failed = 0 }
  | some c ↦ c
]

-- The entry with the rule of a report among the passed or the failed ones.
abbrev pub judged : Report → LinterCheck → LinterCheck
judged r entry =
    if eq_str r.message ""
    then record entry { passed = add_rule entry.passed (rule_mask r.check) }
    else record entry { failed = add_rule entry.failed (rule_mask r.check) }

unfoldable pub add_report : GoMap LinterCheck → Report → GoMap LinterCheck
unfolding add_rule rule_mask
add_report resources r =
    let uid = get_uid r.object in insert uid (judged r (entry_of uid resources)) resources

unfoldable pub add_reports : GoMap LinterCheck → List Report → GoMap LinterCheck
unfolding add_report
add_reports resources [] = resources
add_reports resources (r ∷ reports) = add_reports (add_report resources r) reports

-- `RunWithRules`; `Run` is this with the rules of the linter.
unfoldable pub run_with_rules :
    (GoMap String → String → Bool) → List Check → List Object → List String → List LinterCheck
unfolding run_kube_linter add_reports
run_with_rules ignores checks objects enforced =
    values (add_reports [] (run_kube_linter ignores checks enforced objects))
