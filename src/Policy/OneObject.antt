-- ===== src/Policy/OneObject.antt =====
-- What the linter says of the object of a request, which it is given alone.
use mathlib.Core.List.{append-nil}
use kvisor.Base.{
  String, GoMap, lookup, lookup-insert_self, insert, values, List, [], ◌∷◌, ◌++◌, map, Bool, true,
  false, not, ◌&&◌, ◌||◌, if◌then◌else◌, eq_str, has, any, All, All-append, ◌≡◌, refl, arith, ap,
  ◌∙◌, sym, inl, inr, ◌⊎◌,
}
use kvisor.Kube.Object.{Object, get_meta, get_uid}
use kvisor.Linter.RuleSet.{rules}
use kvisor.Linter.RuleSet.Sets.{known_rule, rules_none}
use kvisor.Linter.Run.{
  Check, Report, LinterCheck, check_reports, object_reports, reports_of, run_kube_linter, entry_of,
  judged, add_report, add_reports, run_with_rules,
}
use kvisor.Linter.Run.Verdict.{fails, failed_of, add_reports-verdict}

any-append {ℓ} :
    {A : Type ℓ} (p : A → Bool) (xs ys : List A) → any p (xs ++ ys) ≡ (any p xs || any p ys)
any-append p [] ys = refl
any-append p (x ∷ xs) ys = ground (arith, any-append p xs ys)

-- The map of checks has one entry, for one object, or none.
abbrev AtMostOne : String → GoMap LinterCheck → Type 0
AtMostOne uid m = (m ≡ []) ⊎ ((c : LinterCheck) × (m ≡ (uid, c) ∷ []))

failed_of-one : (uid : String) (c : LinterCheck) → failed_of uid ((uid, c) ∷ []) ≡ c.failed
unfolding insert
failed_of-one uid c = ground (arith, lookup-insert_self uid c [])

insert-one :
    (k uid : String) (v : LinterCheck) (m : GoMap LinterCheck)
    → k ≡ uid
    → AtMostOne uid m
    → insert k v m ≡ (uid, v) ∷ []
unfolding insert
insert-one k uid v m e (inl none_yet) = ground (arith, e, none_yet)
insert-one k uid v m e (inr (c, one)) = ground (arith, e, one)

add_report-one :
    (uid : String) (m : GoMap LinterCheck) (r : Report)
    → get_uid r.object ≡ uid
    → AtMostOne uid m
    → AtMostOne uid (add_report m r)
unfolding add_report
add_report-one uid m r e one = inr (
  judged r (entry_of (get_uid r.object) m),
  insert-one (get_uid r.object) uid (judged r (entry_of (get_uid r.object) m)) m e one,
)

add_reports-one :
    (uid : String) (reports : List Report) (m : GoMap LinterCheck)
    → All (λ (r : Report). get_uid r.object ≡ uid) reports
    → AtMostOne uid m
    → AtMostOne uid (add_reports m reports)
unfolding add_reports
add_reports-one uid [] m h one = one
add_reports-one uid (r ∷ reports) m h one =
    add_reports-one uid reports (add_report m r) h.1 (add_report-one uid m r h.0 one)

module _ (ignores : GoMap String → String → Bool) where
  -- That an object violates a rule by a check.
  abbrev pub violated_by : List String → Object → String → Check → Bool
  violated_by enforced obj rule check =
      eq_str check.name rule
      && (has check.name enforced
          && (check.matches obj && not (ignores (get_meta obj).annotations check.name)))
      && any (λ message. not (eq_str message "")) (check.func (obj ∷ []) obj)

  abbrev pub violates : List Check → List String → Object → String → Bool
  violates checks enforced obj rule = any (violated_by enforced obj rule) checks

  -- That an object violates a rule of `LinterRuleMap`.
  abbrev pub violated_rule : List Check → List String → Object → String → Bool
  violated_rule checks enforced obj rule = known_rule rule && violates checks enforced obj rule

  fails-map :
      (obj : Object) (rule name : String) (messages : List String)
      → any
          (fails (get_uid obj) rule)
          (map (λ d. record { message = d; check = name; object = obj }) messages)
        ≡ (eq_str name rule && any (λ message. not (eq_str message "")) messages)
  fails-map obj rule name [] = ground arith
  fails-map obj rule name (m ∷ ms) = ground (arith, fails-map obj rule name ms)

  fails-check_reports :
      (enforced : List String) (obj : Object) (rule : String) (check : Check)
      → any (fails (get_uid obj) rule) (check_reports ignores enforced (obj ∷ []) obj check)
        ≡ violated_by enforced obj rule check
  unfolding check_reports
  fails-check_reports enforced obj rule check =
      by_messages
        (has check.name enforced
          && (check.matches obj && not (ignores (get_meta obj).annotations check.name)))
        (check.func (obj ∷ []) obj)
    where
      by_messages :
          (b : Bool) (messages : List String)
          → any (fails (get_uid obj) rule) (
              if b
              then elim messages as (λ _. List Report) [
                | [] ↦ record { message = ""; check = check.name; object = obj } ∷ []
                | m ∷ ms ↦
                    map (λ d. record { message = d; check = check.name; object = obj }) (m ∷ ms)
              ]
              else [])
            ≡ (eq_str check.name rule && b && any (λ message. not (eq_str message "")) messages)
      by_messages false messages = ground arith
      by_messages true [] = ground arith
      by_messages true (m ∷ ms) = ground (arith, fails-map obj rule check.name (m ∷ ms))

  about-map :
      (obj : Object) (name : String) (messages : List String)
      → All
          (λ (r : Report). get_uid r.object ≡ get_uid obj)
          (map (λ d. record { message = d; check = name; object = obj }) messages)
  about-map obj name [] = tt
  about-map obj name (m ∷ ms) = (refl, about-map obj name ms)

  about-check_reports :
      (enforced : List String) (obj : Object) (check : Check)
      → All
          (λ (r : Report). get_uid r.object ≡ get_uid obj)
          (check_reports ignores enforced (obj ∷ []) obj check)
  unfolding check_reports
  about-check_reports enforced obj check =
      by_messages
        (has check.name enforced
          && (check.matches obj && not (ignores (get_meta obj).annotations check.name)))
        (check.func (obj ∷ []) obj)
    where
      by_messages :
          (b : Bool) (messages : List String)
          → All
              (λ (r : Report). get_uid r.object ≡ get_uid obj)
              (if b
                then elim messages as (λ _. List Report) [
                  | [] ↦ record { message = ""; check = check.name; object = obj } ∷ []
                  | m ∷ ms ↦
                      map (λ d. record { message = d; check = check.name; object = obj }) (m ∷ ms)
                ]
                else [])
      by_messages false messages = tt
      by_messages true [] = (refl, tt)
      by_messages true (m ∷ ms) = about-map obj check.name (m ∷ ms)

  object_reports-violates :
      (checks : List Check) (enforced : List String) (obj : Object) (rule : String)
      → any (fails (get_uid obj) rule) (object_reports ignores checks enforced (obj ∷ []) obj)
        ≡ violates checks enforced obj rule
  unfolding object_reports
  object_reports-violates [] enforced obj rule = refl
  object_reports-violates (check ∷ checks) enforced obj rule = ground (
    arith,
    any-append (fails (get_uid obj) rule) (check_reports ignores enforced (obj ∷ []) obj check)
        (object_reports ignores checks enforced (obj ∷ []) obj),
    fails-check_reports enforced obj rule check,
    object_reports-violates checks enforced obj rule,
  )

  about-object_reports :
      (checks : List Check) (enforced : List String) (obj : Object)
      → All
          (λ (r : Report). get_uid r.object ≡ get_uid obj)
          (object_reports ignores checks enforced (obj ∷ []) obj)
  unfolding object_reports
  about-object_reports [] enforced obj = tt
  about-object_reports (check ∷ checks) enforced obj =
      All-append _ _ _ (about-check_reports enforced obj check)
        (about-object_reports checks enforced obj)

  failed-violates :
      (checks : List Check) (enforced : List String) (obj : Object) (rule : String)
      → has rule (
          rules (
            failed_of
              (get_uid obj)
              (add_reports [] (object_reports ignores checks enforced (obj ∷ []) obj))))
        ≡ (known_rule rule && violates checks enforced obj rule)
  failed-violates checks enforced obj rule =
      (add_reports-verdict (get_uid obj) rule
        (object_reports ignores checks enforced (obj ∷ []) obj)).0
      ∙ ap (λ b. known_rule rule && b) (object_reports-violates checks enforced obj rule)

  run_values :
      (checks : List Check) (enforced : List String) (obj : Object)
      → run_with_rules ignores checks (obj ∷ []) enforced
        ≡ values (add_reports [] (object_reports ignores checks enforced (obj ∷ []) obj))
  unfolding run_with_rules run_kube_linter reports_of
  run_values checks enforced obj =
      ap (λ reports. values (add_reports [] reports))
        (append-nil (object_reports ignores checks enforced (obj ∷ []) obj))

  -- The linter's answer on one object: no check, and then no rule is violated; or one check, whose
  -- failed rules are those that are violated.
  pub run_on_one :
      (checks : List Check) (enforced : List String) (obj : Object)
      → ((run_with_rules ignores checks (obj ∷ []) enforced ≡ [])
          × ((rule : String) → (known_rule rule && violates checks enforced obj rule) ≡ false))
        ⊎ ((c : LinterCheck) × (run_with_rules ignores checks (obj ∷ []) enforced ≡ c ∷ [])
            × ((rule : String)
                → has rule (rules c.failed)
                  ≡ (known_rule rule && violates checks enforced obj rule)))
  unfolding lookup
  run_on_one checks enforced obj =
      elim (add_reports-one (get_uid obj) (object_reports ignores checks enforced (obj ∷ []) obj) []
        (about-object_reports checks enforced obj) (inl refl)) [
          | inl empty ↦ inl (
            run_values checks enforced obj ∙ ap values empty,
            λ rule.
                sym (failed-violates checks enforced obj rule)
                ∙ ap (λ m. has rule (rules (failed_of (get_uid obj) m))) empty
                ∙ rules_none rule,
          )
          | inr (c, one) ↦ inr (
            c,
            run_values checks enforced obj ∙ ap values one,
            λ rule.
                sym (
                  ap (λ m. has rule (rules (failed_of (get_uid obj) m))) one
                  ∙ ap (λ v. has rule (rules v)) (failed_of-one (get_uid obj) c))
                ∙ failed-violates checks enforced obj rule,
          )
        ]
