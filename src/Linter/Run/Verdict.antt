-- ===== src/Linter/Run/Verdict.antt =====
-- What the check of an object says: the rules that it failed, and those that it passed.
use kvisor.Base.{
  ℕ, String, GoMap, lookup, lookup-insert, insert, List, [], ◌∷◌, Bool, true, false, not, ◌&&◌,
  ◌||◌, if◌then◌else◌, eq_str, has, any, ◌≡◌, refl, arith, ap, ◌∙◌, str_dec, ite,
}
use kvisor.Kube.Object.{get_uid}
use kvisor.Linter.RuleSet.{rules}
use kvisor.Linter.RuleSet.Sets.{known_rule, rules-add_rule, rules_none}
use kvisor.Linter.Run.{Report, LinterCheck, entry_of, judged, add_report, add_reports}

-- A report that an object fails a rule, or passes it.
abbrev pub fails : String → String → Report → Bool
fails uid rule r =
    eq_str (get_uid r.object) uid && (not (eq_str r.message "") && eq_str r.check rule)

abbrev pub passes : String → String → Report → Bool
passes uid rule r = eq_str (get_uid r.object) uid && (eq_str r.message "" && eq_str r.check rule)

abbrev pub failed_of : String → GoMap LinterCheck → ℕ
failed_of uid resources = (entry_of uid resources).failed

abbrev pub passed_of : String → GoMap LinterCheck → ℕ
passed_of uid resources = (entry_of uid resources).passed

entry_of-insert :
    (uid k : String) (c : LinterCheck) (resources : GoMap LinterCheck)
    → entry_of uid (insert k c resources) ≡ (if eq_str k uid then c else entry_of uid resources)
entry_of-insert uid k c resources = ground (arith, lookup-insert k uid c resources)

entry_of-add_report :
    (uid : String) (resources : GoMap LinterCheck) (r : Report)
    → entry_of uid (add_report resources r) ≡ (
        if eq_str (get_uid r.object) uid
        then judged r (entry_of uid resources)
        else entry_of uid resources)
unfolding add_report
entry_of-add_report uid resources r =
    entry_of-insert uid (get_uid r.object) (judged r (entry_of (get_uid r.object) resources))
      resources
    ∙ elim (str_dec (get_uid r.object) uid)
        as (λ c.
          (if ite c true false
            then judged r (entry_of (get_uid r.object) resources)
            else entry_of uid resources)
          ≡ (if ite c true false
              then judged r (entry_of uid resources)
              else entry_of uid resources)) [
                | yes here ↦ ap (λ k. judged r (entry_of k resources)) here
                | no there ↦ refl
              ]

add_report-failed :
    (uid rule : String) (resources : GoMap LinterCheck) (r : Report)
    → has rule (rules (failed_of uid (add_report resources r)))
      ≡ ((known_rule rule && fails uid rule r) || has rule (rules (failed_of uid resources)))
add_report-failed uid rule resources r =
    ap (λ c. has rule (rules c.failed)) (entry_of-add_report uid resources r)
    ∙ ground (arith, rules-add_rule rule r.check (failed_of uid resources))

add_report-passed :
    (uid rule : String) (resources : GoMap LinterCheck) (r : Report)
    → has rule (rules (passed_of uid (add_report resources r)))
      ≡ ((known_rule rule && passes uid rule r) || has rule (rules (passed_of uid resources)))
add_report-passed uid rule resources r =
    ap (λ c. has rule (rules c.passed)) (entry_of-add_report uid resources r)
    ∙ ground (arith, rules-add_rule rule r.check (passed_of uid resources))

add_reports-from :
    (uid rule : String) (reports : List Report) (resources : GoMap LinterCheck)
    → (has rule (rules (failed_of uid (add_reports resources reports))) ≡ (
        (known_rule rule && any (fails uid rule) reports)
        || has rule (rules (failed_of uid resources))))
      × (has rule (rules (passed_of uid (add_reports resources reports))) ≡ (
          (known_rule rule && any (passes uid rule) reports)
          || has rule (rules (passed_of uid resources))))
unfolding add_reports
add_reports-from uid rule [] resources = ground arith
add_reports-from uid rule (r ∷ reports) resources = ground (
  arith,
  add_reports-from uid rule reports (add_report resources r),
  add_report-failed uid rule resources r,
  add_report-passed uid rule resources r,
)

-- The check of an object says what the linter found: a rule is among the failed ones exactly if it
-- is one of `LinterRuleMap` and some report on the object, under the name of the rule, has a
-- message; and among the passed ones exactly if some such report has none. The check of an object
-- without reports is empty.
pub add_reports-verdict :
    (uid rule : String) (reports : List Report)
    → (has rule (rules (failed_of uid (add_reports [] reports)))
        ≡ (known_rule rule && any (fails uid rule) reports))
      × (has rule (rules (passed_of uid (add_reports [] reports)))
          ≡ (known_rule rule && any (passes uid rule) reports))
unfolding lookup
add_reports-verdict uid rule reports =
    ground (arith, add_reports-from uid rule reports [], rules_none rule)
