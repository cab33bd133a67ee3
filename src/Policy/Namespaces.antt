-- ===== src/Policy/Namespaces.antt =====
-- The rule on network policies in the webhook, where the linter sees one object only.
use mathlib.Core.List.{Perm}
use kvisor.Base.{
  String, GoMap, List, [], ◌∷◌, ◌++◌, Bool, true, false, ◌≡◌, ◌≢◌, ◌⊎◌, inl, inr, arith, has, any,
  eq_str, eq_str-test, ap, sym, ◌∙◌,
}
use kvisor.Kube.Object.{Object, Meta, namespace_object}
use kvisor.Linter.RuleSet.Sets.{known_rule-test}
use kvisor.Linter.Run.{Check}
use kvisor.Linter.Custom.{is_policy_of, network_policy_messages, network_policy_check}
use kvisor.Policy.{Enforcer, enforcer_rules, denied, handle, linted_kinds}
use kvisor.Policy.OneObject.{violated_by, violated_rule}
use kvisor.Policy.Denied.{handle-violates}

abbrev pub network_rule : String
network_rule = "network-policy-per-namespace"

alone :
    (m : Meta)
    → m.kind ≡ "Namespace"
    → network_policy_messages (namespace_object m ∷ []) (namespace_object m)
      ≡ "Namespace does not have any network policy" ∷ []
unfolding network_policy_messages is_policy_of
alone m e =
    ground (arith, ap (λ k. eq_str k "NetworkPolicy") e ∙ eq_str-test "Namespace" "NetworkPolicy")

any-middle {ℓ} :
    {A : Type ℓ} (p : A → Bool) (xs : List A) (x : A) (ys : List A)
    → p x ≡ true
    → any p (xs ++ x ∷ ys) ≡ true
any-middle p [] x ys h = ground (arith, h)
any-middle p (y ∷ xs) x ys h = ground (arith, any-middle p xs x ys h)

module _ (applies : Object → Bool) (ignores : GoMap String → String → Bool) where
  violated :
      (m : Meta) (enforced : List String)
      → m.kind ≡ "Namespace"
      → applies (namespace_object m) ≡ true
      → ignores m.annotations network_rule ≡ false
      → has network_rule enforced ≡ true
      → violated_by ignores enforced
          (namespace_object m)
          network_rule
          (network_policy_check applies)
        ≡ true
  unfolding network_policy_check
  violated m enforced e applied heeded rule = ground (
    arith,
    alone m e,
    applied,
    heeded,
    rule,
    eq_str-test network_rule network_rule,
    eq_str-test "Namespace does not have any network policy" "",
  )

  -- The webhook denies every namespace, as soon as the rule network-policy-per-namespace is enforced,
  -- and names this rule: the linter is given the namespace alone, and so never sees a network policy
  -- of it. This holds of a namespace without owners whose annotations do not ignore the check, if
  -- the check is among those of the linter and applies to namespaces.
  pub namespace_denied :
      {Raw : Type 0} (decode : String → Raw → String ⊎ Object)
      (sort_strings : List String → List String)
      (sort_strings-perm : (xs : List String) → Perm (sort_strings xs) xs)
      (before after : List Check) (e : Enforcer) (raw : Raw) (m : Meta)
      → decode "Namespace" raw ≡ inr (namespace_object m)
      → m.kind ≡ "Namespace"
      → m.owner_references ≡ []
      → has network_rule (enforcer_rules e) ≡ true
      → applies (namespace_object m) ≡ true
      → ignores m.annotations network_rule ≡ false
      → (named : List String) × (handle decode sort_strings ignores
            (before ++ network_policy_check applies ∷ after)
            e
            "Namespace"
            raw
          ≡ denied "Namespace" named)
        × (has network_rule named ≡ true)
  namespace_denied decode sort_strings sort_strings-perm before after e raw m decoded kind orphan
        rule applied heeded =
      let checks = before ++ network_policy_check applies ∷ after in
      let broken : (violated_rule ignores checks (enforcer_rules e) (namespace_object m)
            network_rule
          ≡ true) =
        ground (
          arith,
          known_rule-test network_rule,
          any-middle (violated_by ignores (enforcer_rules e) (namespace_object m) network_rule)
              before (network_policy_check applies) after
              (violated m (enforcer_rules e) kind applied heeded rule),
        ) in
      elim (handle-violates ignores decode sort_strings sort_strings-perm checks e "Namespace" raw
        (namespace_object m) (some_rule e rule) namespace_linted decoded orphan) [
          | inl (named, response, some_named, verdict) ↦
              (named, response, verdict network_rule ∙ broken)
          | inr (reason, response, fine) ↦ absurd (let clash = sym broken ∙ fine network_rule in cc)
        ]
    where
      some_rule :
          (e : Enforcer) → has network_rule (enforcer_rules e) ≡ true → enforcer_rules e ≢ []
      some_rule e h none_enforced = let clash = sym h ∙ ap (has network_rule) none_enforced in cc

      namespace_linted : has "Namespace" linted_kinds ≡ true
      namespace_linted = ground (arith, eq_str-test "Namespace" "Namespace")
