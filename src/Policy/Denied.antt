-- ===== src/Policy/Denied.antt =====
-- When the webhook denies an object, and which rules it names.
use mathlib.Core.List.{Perm}
use kvisor.Base.{
  String, GoMap, List, [], ◌∷◌, none, Bool, true, false, if◌then◌else◌, eq_str, has, any, any-perm,
  ◌≡◌, ◌≢◌, refl, arith, ap, ◌∙◌, sym, inl, inr, ◌⊎◌, length,
}
use kvisor.Kube.Object.{Object, get_meta}
use kvisor.Linter.RuleSet.{rules}
use kvisor.Linter.Run.{Check, LinterCheck, run_with_rules}
use kvisor.Policy.{
  verdict_on, errored, undecodable, no_enforced_rules, no_rules_on_object, kind_not_linted,
  passed_all_checks, Enforcer, Reason, skip_objects_with_owners, enforcer_rules, allowed, denied,
  respond, review, handle, linted_kinds,
}
use kvisor.Policy.OneObject.{violated_rule, run_on_one}

orphan-skip :
    (obj : Object) → (get_meta obj).owner_references ≡ [] → skip_objects_with_owners obj ≡ none
unfolding skip_objects_with_owners
orphan-skip obj h = ground (arith, ap (λ refs. length refs) h)

module _ (ignores : GoMap String → String → Bool) where
  module _ {Raw : Type 0} (decode : String → Raw → String ⊎ Object)
      (sort_strings : List String → List String)
      (sort_strings-perm : (xs : List String) → Perm (sort_strings xs) xs) where
    handle-respond :
        (checks : List Check) (e : Enforcer) (kind : String) (raw : Raw) (obj : Object)
        → enforcer_rules e ≢ []
        → has kind linted_kinds ≡ true
        → decode kind raw ≡ inr obj
        → (get_meta obj).owner_references ≡ []
        → handle decode sort_strings ignores checks e kind raw
          ≡ respond decode sort_strings ignores checks kind
              (run_with_rules ignores checks (obj ∷ []) (enforcer_rules e))
    unfolding handle review
    handle-respond checks e kind raw obj enforced linted decoded orphan =
        go (enforcer_rules e) enforced
      where
        go :
            (rules : List String)
            → rules ≢ []
            → elim rules [
              | [] ↦ allowed no_enforced_rules
              | rule ∷ more ↦
                  if has kind linted_kinds
                  then elim (decode kind raw) [
                    | inl err ↦ errored (undecodable err)
                    | inr obj ↦ review decode sort_strings ignores checks kind (rule ∷ more) obj
                  ]
                  else allowed (kind_not_linted kind)
            ]
              ≡ respond decode sort_strings ignores checks kind
                  (run_with_rules ignores checks (obj ∷ []) rules)
        go [] some_rule = absurd (some_rule refl)
        go (rule ∷ more) some_rule = rw (linted, decoded, review, orphan-skip obj orphan) refl

    -- The webhook denies exactly the violations of enforced rules: on a request whose kind is
    -- linted and whose object is decoded and has no owners, while some rule is enforced, either it
    -- denies the object, and the rules that it names are those that the object violates; or it
    -- allows the object, and the object violates none. An object violates a rule of
    -- `LinterRuleMap` if the rule is enforced, and a check of that name applies to the object, is
    -- not ignored by its annotations, and has a message for it. It never answers with an error.
    pub handle-violates :
        (checks : List Check) (e : Enforcer) (kind : String) (raw : Raw) (obj : Object)
        → enforcer_rules e ≢ []
        → has kind linted_kinds ≡ true
        → decode kind raw ≡ inr obj
        → (get_meta obj).owner_references ≡ []
        → let response = handle decode sort_strings ignores checks e kind raw in
          ((named : List String) × (response ≡ denied kind named)
            × (named ≢ [])
            × ((rule : String)
                → has rule named ≡ violated_rule ignores checks (enforcer_rules e) obj rule))
          ⊎ ((reason : Reason) × (response ≡ allowed reason)
              × ((rule : String)
                  → violated_rule ignores checks (enforcer_rules e) obj rule ≡ false))
    unfolding respond
    handle-violates checks e kind raw obj enforced linted decoded orphan =
        let answered = handle-respond checks e kind raw obj enforced linted decoded orphan in
        elim (run_on_one ignores checks (enforcer_rules e) obj) [
          | inl (empty, fine) ↦ inr (
            no_rules_on_object,
            answered ∙ ap (respond decode sort_strings ignores checks kind) empty,
            fine,
          )
          | inr (c, one, verdict) ↦
              named_or_not c verdict
                (answered ∙ ap (respond decode sort_strings ignores checks kind) one)
                (rules c.failed) refl
        ]
      where
        named_or_not :
            (c : LinterCheck)
            → ((rule : String)
                → has rule (rules c.failed)
                  ≡ violated_rule ignores checks (enforcer_rules e) obj rule)
            → handle decode sort_strings ignores checks e kind raw
              ≡ respond decode sort_strings ignores checks kind (c ∷ [])
            → (names : List String) → names ≡ rules c.failed
            → ((named : List String) × (handle decode sort_strings ignores checks e kind raw
                  ≡ denied kind named)
                × (named ≢ [])
                × ((rule : String)
                    → has rule named ≡ violated_rule ignores checks (enforcer_rules e) obj rule))
              ⊎ ((reason : Reason) × (handle decode sort_strings ignores checks e kind raw
                    ≡ allowed reason)
                  × ((rule : String)
                      → violated_rule ignores checks (enforcer_rules e) obj rule ≡ false))
        named_or_not c verdict answered [] same = inr (
          passed_all_checks kind,
          answered
              ∙ ap (λ names. verdict_on decode sort_strings ignores checks kind names) (sym same),
          λ rule. sym (verdict rule) ∙ ap (has rule) (sym same),
        )
        named_or_not c verdict answered (name ∷ names) same = inl (
          sort_strings (name ∷ names),
          answered
              ∙ ap (λ names. verdict_on decode sort_strings ignores checks kind names) (sym same),
          λ none_named.
              let clash =
                sym (ap (any (λ _. true)) none_named)
                ∙ any-perm (λ _. true) (name ∷ names) (sort_strings (name ∷ names))
                    (sort_strings-perm _) in
              cc,
          λ rule.
              any-perm (λ other. eq_str other rule) (name ∷ names) (sort_strings (name ∷ names))
                (sort_strings-perm _)
              ∙ ap (has rule) same
              ∙ verdict rule,
        )
