-- ===== src/Base/Names.antt =====
-- Lists of names, such as the keys of a map.
use Prim.Native.String.{String}
use mathlib.Core.Path.{◌≡◌, refl, ap}
use mathlib.Core.Bool.{Bool, true, false, ◌&&◌}
use mathlib.Core.List.{List, [], ◌∷◌}
use mathlib.Core.Option.{Option, none, some}
use native.Mathlib.Omega.{arith}
use kvisor.Base.Lists.{keep, any}
use kvisor.Base.Text.{str_dec, eq_str}
use kvisor.Base.Maps.{GoMap, lookup, keys}

-- `lo.Contains`.
abbrev pub has : String → List String → Bool
has name names = any (λ other. eq_str other name) names

abbrev pub is_some {ℓ} : {A : Type ℓ} → Option A → Bool
is_some none = false
is_some (some a) = true

pub has-keep :
    (p : String → Bool) (name : String) (names : List String)
    → has name (keep p names) ≡ true
    → (has name names ≡ true) × (p name ≡ true)
has-keep p name [] e = ground arith
has-keep p name (x ∷ xs) e = elim (str_dec x name) [
  | yes same ↦ ground (arith, ap p same, has-keep p name xs)
  | no other ↦ ground (arith, other, has-keep p name xs)
]

pub any-keep {ℓ} :
    {A : Type ℓ} (h p : A → Bool) (xs : List A) → any h (keep p xs) ≡ any (λ x. p x && h x) xs
any-keep h p [] = refl
any-keep h p (x ∷ xs) = ground (arith, any-keep h p xs)

pub has-keys {ℓ} : {V : Type ℓ} (k : String) (m : GoMap V) → has k (keys m) ≡ is_some (lookup k m)
unfolding lookup
has-keys k [] = refl
has-keys k ((j, v) ∷ m) = ground (arith, has-keys k m)
