-- ===== src/Linter/RuleSet/Sets.antt =====
-- A set of rules that is kept as a number is the set of the rules that were added.
use Prim.Native.Nat.{bit_or, bit_and}
use text.Mathlib.Text.{◌==◌ as ◌=ₛ◌}
use text.Mathlib.TextEquality.{eq_iff}
use kvisor.Base.{
  ℕ, ◌<◌, shl_one, bit, bit-or, bit-shl, bit-zero, and-shl, shl_one-positive, shl_one-below,
  or_below, String, GoMap, lookup, IsMap, List, [], ◌∷◌, none, some, Bool, true, false, not, ◌&&◌,
  ◌||◌, ◌==◌, has, is_some, ltb, if◌then◌else◌, ◌≡◌, refl, sym, ap, ◌∙◌, subst, arith, Option-cases,
  inl, inr, eq_str, str_dec,
}
use kvisor.Linter.RuleSet.{rule_positions, shift_all, rule_mask, add_rule, rules_of, rules}

-- Tests that evaluate: no key, and no value, stands twice, and the values are below a bound.
abbrev fresh : String → GoMap ℕ → Bool
fresh k [] = true
fresh k ((j, v) ∷ m) = if j =ₛ k then false else fresh k m

abbrev keys_apart : GoMap ℕ → Bool
keys_apart [] = true
keys_apart ((k, v) ∷ m) = fresh k m && keys_apart m

abbrev new_value : ℕ → GoMap ℕ → Bool
new_value v [] = true
new_value v ((k, w) ∷ m) = if w == v then false else new_value v m

abbrev values_apart : GoMap ℕ → Bool
values_apart [] = true
values_apart ((k, v) ∷ m) = new_value v m && values_apart m

abbrev values_below : ℕ → GoMap ℕ → Bool
values_below n [] = true
values_below n ((k, v) ∷ m) = ltb v n && values_below n m

fresh-lookup : (k : String) (m : GoMap ℕ) → fresh k m ≡ true → lookup k m ≡ none
unfolding lookup
fresh-lookup k [] h = refl
fresh-lookup k ((j, v) ∷ m) h = ground (arith, h, eq_iff j k, fresh-lookup k m)

apart-IsMap : (m : GoMap ℕ) → keys_apart m ≡ true → IsMap m
apart-IsMap [] h = tt
apart-IsMap ((k, v) ∷ m) h = ground (arith, h, fresh-lookup k m, apart-IsMap m)

new_value-absent :
    (v : ℕ) (a : String) (m : GoMap ℕ) → new_value v m ≡ true → ¬ (lookup a m ≡ some v)
unfolding lookup
new_value-absent v a [] h e = cc
new_value-absent v a ((k, w) ∷ m) h e = ground (arith, h, e, new_value-absent v a m)

-- Two names do not share a value.
values_apart-name :
    (a b : String) (v : ℕ) (m : GoMap ℕ)
    → values_apart m ≡ true
    → lookup a m ≡ some v
    → lookup b m ≡ some v
    → a ≡ b
unfolding lookup
values_apart-name a b v [] h p q = cc
values_apart-name a b v ((k, w) ∷ m) h p q =
    ground
      (arith, h, p, q, new_value-absent w a m, new_value-absent w b m, values_apart-name a b v m)

lookup-shift_all :
    (k : String) (m : GoMap ℕ)
    → lookup k (shift_all m) ≡ elim (lookup k m) [ none ↦ none | some i ↦ some (shl_one i) ]
unfolding lookup
lookup-shift_all k [] = refl
lookup-shift_all k ((j, i) ∷ m) = ground (arith, lookup-shift_all k m)

values_below-lookup :
    (n : ℕ) (k : String) (i : ℕ) (m : GoMap ℕ)
    → values_below n m ≡ true
    → lookup k m ≡ some i
    → i < n
unfolding lookup
values_below-lookup n k i [] h e = cc
values_below-lookup n k i ((j, v) ∷ m) h e = ground (arith, h, e, values_below-lookup n k i m)

positions_keys : keys_apart rule_positions ≡ true
positions_keys = refl

positions_values : values_apart rule_positions ≡ true
positions_values = refl

positions_below : values_below 42 rule_positions ≡ true
positions_below = refl

picked : (i set : ℕ) → (bit_and set (shl_one i) == 0) ≡ (bit i set == 0)
picked i set = grind (arith, and-shl i set, shl_one-positive i)

has-rules_of :
    (k : String) (set : ℕ) (m : GoMap ℕ)
    → IsMap m
    → has k (rules_of (shift_all m) set)
      ≡ elim (lookup k m) [ none ↦ false | some i ↦ not (bit i set == 0) ]
unfolding rules_of lookup
has-rules_of k set [] h = refl
has-rules_of k set ((j, i) ∷ m) h = ground (arith, picked i set, has-rules_of k set m h.1, h.0)

unfoldable pub known_rule : String → Bool
known_rule k = is_some (lookup k rule_positions)

rule_mask-position :
    (name : String)
    → rule_mask name
      ≡ elim (lookup name rule_positions) as (λ _. ℕ) [ none ↦ 0 | some i ↦ shl_one i ]
unfolding rule_mask
rule_mask-position name = ground (arith, lookup-shift_all name rule_positions)

position_of_name :
    (k name : String) (i j : ℕ)
    → lookup k rule_positions ≡ some i
    → lookup name rule_positions ≡ some j
    → (i == j) ≡ eq_str name k
position_of_name k name i j p q = elim (str_dec name k) [
  | yes same ↦ ground (arith, p, q, ap (λ a. lookup a rule_positions) same)
  | no other ↦ ground (
    arith,
    other,
    λ (e : i ≡ j). other (
        values_apart-name name k j rule_positions positions_values q
          (subst (λ v. lookup k rule_positions ≡ some v) e p)),
  )
]

bit-rule_mask :
    (k : String) (i : ℕ) (name : String)
    → lookup k rule_positions ≡ some i
    → (bit i (rule_mask name) == 0) ≡ not (eq_str name k)
bit-rule_mask k i name e = elim (Option-cases (lookup name rule_positions)) [
  | inl absent ↦ rw (rule_mask-position name, absent) (ground (arith, bit-zero i, other absent))
  | inr (j, there) ↦
      rw (rule_mask-position name, there)
        (ground (arith, bit-shl i j, position_of_name k name i j e there))
]
  where
    other : lookup name rule_positions ≡ none → ¬ (name ≡ k)
    other absent same = let clash = sym absent ∙ ap (λ a. lookup a rule_positions) same ∙ e in cc

rules-rule :
    (k : String) (set : ℕ)
    → has k (rules set)
      ≡ elim (lookup k rule_positions) [ none ↦ false | some i ↦ not (bit i set == 0) ]
unfolding rules
rules-rule k set = has-rules_of k set rule_positions (apart-IsMap rule_positions positions_keys)

-- Adding a rule adds its name, if it is one of `LinterRuleMap`, and no other name.
pub rules-add_rule :
    (k name : String) (set : ℕ)
    → has k (rules (add_rule set (rule_mask name)))
      ≡ ((known_rule k && eq_str name k) || has k (rules set))
unfolding add_rule known_rule
rules-add_rule k name set = elim (Option-cases (lookup k rule_positions)) [
  | inl absent ↦
      ground (arith, absent, rules-rule k set, rules-rule k (bit_or set (rule_mask name)))
  | inr (i, there) ↦ ground (
    arith,
    there,
    rules-rule k set,
    rules-rule k (bit_or set (rule_mask name)),
    bit-or i set (rule_mask name),
    bit-rule_mask k i name there,
  )
]

-- The set after rules were added by their names, one after the other, as the linter does it.
unfoldable pub add_rules : ℕ → List String → ℕ
unfolding rule_mask add_rule
add_rules set [] = set
add_rules set (name ∷ names) = add_rules (add_rule set (rule_mask name)) names

rules-add_rules_from :
    (k : String) (names : List String) (set : ℕ)
    → has k (rules (add_rules set names)) ≡ ((known_rule k && has k names) || has k (rules set))
unfolding add_rules
rules-add_rules_from k [] set = ground arith
rules-add_rules_from k (name ∷ names) set =
    ground (
      arith,
      rules-add_rules_from k names (add_rule set (rule_mask name)),
      rules-add_rule k name set,
    )

pub rules_none : (k : String) → has k (rules 0) ≡ false
rules_none k = elim (Option-cases (lookup k rule_positions)) [
  | inl absent ↦ ground (arith, absent, rules-rule k 0)
  | inr (i, there) ↦ ground (arith, there, rules-rule k 0, bit-zero i)
]

-- A set of rules, which is one number, gives back what was put in: after rules were added by name
-- to the empty set, `Rules` lists exactly the names that were added and are in `LinterRuleMap`.
pub rules-add_rules :
    (k : String) (names : List String)
    → has k (rules (add_rules 0 names)) ≡ (known_rule k && has k names)
rules-add_rules k names = ground (arith, rules-add_rules_from k names 0, rules_none k)

rule_mask-below : (name : String) → rule_mask name < shl_one 42
rule_mask-below name = elim (Option-cases (lookup name rule_positions)) [
  | inl absent ↦ rw (rule_mask-position name, absent) (shl_one-positive 42)
  | inr (i, there) ↦
      rw (rule_mask-position name, there)
        (shl_one-below i 42 (values_below-lookup 42 name i rule_positions positions_below there))
]

-- A set that rules are added to by name stays below 2 ^ 42: the number does not overflow a signed
-- 64-bit integer, and never turns negative.
pub add_rules-below :
    (names : List String) (set : ℕ) → set < shl_one 42 → add_rules set names < shl_one 42
unfolding add_rules add_rule
add_rules-below [] set h = h
add_rules-below (name ∷ names) set h =
    add_rules-below names (bit_or set (rule_mask name))
      (or_below 42 set (rule_mask name) h (rule_mask-below name))

abbrev pub named_in : String → GoMap ℕ → Bool
named_in k [] = false
named_in k ((j, v) ∷ m) = if j =ₛ k then true else named_in k m

is_some-lookup : (k : String) (m : GoMap ℕ) → is_some (lookup k m) ≡ named_in k m
unfolding lookup
is_some-lookup k [] = refl
is_some-lookup k ((j, v) ∷ m) = ground (arith, eq_iff j k, is_some-lookup k m)

-- Of a literal, the test on the right evaluates.
pub known_rule-test : (k : String) → known_rule k ≡ named_in k rule_positions
unfolding known_rule
known_rule-test k = is_some-lookup k rule_positions
