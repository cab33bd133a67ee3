-- ===== src/Base/Members.antt =====
-- Boolean tests on the members of a list, and on a permutation of it.
use mathlib.Core.List.{
  Mem, Perm, List, [], ◌∷◌, not-mem-nil, mem-cons_self, mem-cons_of_mem, eq-or-mem_of_mem-cons,
}
use mathlib.Core.List.Perm
use mathlib.Core.Logic.Or
use mathlib.Core.Logic.{inl, inr}
use mathlib.Core.HLevel.{⊥_prop}
use mathlib.Core.Path.{◌≡◌, refl, ap, sym, ◌∙◌}
use mathlib.Core.Bool.{Bool, true, false, not}
use native.Mathlib.Omega.{arith}
use kvisor.Base.Tests.{Bool-cases}
use kvisor.Base.Lists.{All, any}

untested {ℓ} :
    {A : Type ℓ} (p : A → Bool) (x : A) (xs : List A)
    → p x ≡ false
    → All (λ y. p y ≡ true) xs
    → ¬ Mem x xs
untested p x [] e h m = not-mem-nil m
untested p x (y ∷ ys) e h m =
    Or.elim ⊥_prop (eq-or-mem_of_mem-cons m) (λ same. ground (arith, ap p same, e, h.0))
      (untested p x ys e h.1)

-- Of a member of a list, a test is true that is true of all members.
pub All-mem {ℓ} :
    {A : Type ℓ} (p : A → Bool) (x : A) (xs : List A)
    → All (λ y. p y ≡ true) xs
    → Mem x xs
    → p x ≡ true
All-mem p x xs h m = elim (Bool-cases (p x)) [ inl e ↦ e | inr e ↦ absurd (untested p x xs e h m) ]

pub All-of_mem {ℓ κ} :
    {A : Type ℓ} (P : A → Type κ) (xs : List A) → ((x : A) → Mem x xs → P x) → All P xs
All-of_mem P [] h = tt
All-of_mem P (x ∷ xs) h = (h x mem-cons_self, All-of_mem P xs (λ y m. h y (mem-cons_of_mem x m)))

pub All-perm {ℓ} :
    {A : Type ℓ} (p : A → Bool) (xs ys : List A)
    → Perm ys xs
    → All (λ x. p x ≡ true) xs
    → All (λ x. p x ≡ true) ys
All-perm p xs ys same h = All-of_mem _ ys (λ y m. All-mem p y xs h (Perm.subset same y m))

All-none_any {ℓ} :
    {A : Type ℓ} (p : A → Bool) (xs : List A) → any p xs ≡ false → All (λ x. not (p x) ≡ true) xs
All-none_any p [] h = tt
All-none_any p (x ∷ xs) h = ground (arith, h, All-none_any p xs)

any-none_all {ℓ} :
    {A : Type ℓ} (p : A → Bool) (xs : List A) → All (λ x. not (p x) ≡ true) xs → any p xs ≡ false
any-none_all p [] h = refl
any-none_all p (x ∷ xs) h = ground (arith, h.0, any-none_all p xs h.1)

any-perm_none {ℓ} :
    {A : Type ℓ} (p : A → Bool) (xs ys : List A) → Perm ys xs → any p xs ≡ false → any p ys ≡ false
any-perm_none p xs ys same h =
    any-none_all p ys (All-perm (λ x. not (p x)) xs ys same (All-none_any p xs h))

-- A search does not depend on the order.
pub any-perm {ℓ} : {A : Type ℓ} (p : A → Bool) (xs ys : List A) → Perm ys xs → any p ys ≡ any p xs
any-perm p xs ys same = elim (Bool-cases (any p xs)) [
  | inr none ↦ any-perm_none p xs ys same none ∙ sym none
  | inl some ↦ elim (Bool-cases (any p ys)) [
    | inl found ↦ found ∙ sym some
    | inr none ↦ none ∙ sym (any-perm_none p ys xs (Perm.symm same) none)
  ]
]
