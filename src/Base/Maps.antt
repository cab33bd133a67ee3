-- ===== src/Base/Maps.antt =====
-- Go maps with string keys: association lists, in the order in which a `range` loop visits them.
use Prim.Native.Nat.{suc, ◌≤◌}
use Prim.Native.String.{String}
use mathlib.Core.Path.{◌≡◌, refl}
use mathlib.Core.Logic.{ite}
use mathlib.Core.List.{List, [], ◌∷◌}
use mathlib.Core.Option.{Option, none, some}
use native.Mathlib.Omega.{arith}
use mathlib.Core.Bool.{false}
use kvisor.Base.Tests.{◌==◌}
use kvisor.Base.Lists.{length}
use kvisor.Base.Text.{str_dec}

abbrev pub GoMap {ℓ} : Type ℓ → Type ℓ
GoMap V = List (String × V)

-- `map[string]struct{}`.
abbrev pub GoSet : Type 0
GoSet = GoMap (Unit {0})

module _ {ℓ} {V : Type ℓ} where
  -- `v, found := m[k]`.
  unfoldable pub lookup : String → GoMap V → Option V
  lookup k [] = none
  lookup k ((j, v) ∷ m) = ite (str_dec j k) (some v) (lookup k m)

  -- `m[k] = v`.
  unfoldable pub insert : String → V → GoMap V → GoMap V
  insert k v [] = (k, v) ∷ []
  insert k v ((j, w) ∷ m) = ite (str_dec j k) ((k, v) ∷ m) ((j, w) ∷ insert k v m)

  -- `delete(m, k)`.
  unfoldable pub delete : String → GoMap V → GoMap V
  delete k [] = []
  delete k ((j, w) ∷ m) = ite (str_dec j k) (delete k m) ((j, w) ∷ delete k m)

  -- `lo.Keys(m)`.
  abbrev pub keys : GoMap V → List String
  keys [] = []
  keys ((k, v) ∷ m) = k ∷ keys m

  -- `lo.Values(m)`.
  abbrev pub values : GoMap V → List V
  values [] = []
  values ((k, v) ∷ m) = v ∷ values m

  -- A `range` loop that changes, or deletes, the entry that it visits.
  unfoldable pub range_update : (String → V → Option V) → GoMap V → GoMap V
  range_update f [] = []
  range_update f ((k, v) ∷ m) = elim (f k v) [
    | none ↦ range_update f m
    | some w ↦ (k, w) ∷ range_update f m
  ]

  pub lookup-insert :
      (k j : String) (v : V) (m : GoMap V)
      → lookup j (insert k v m) ≡ ite (str_dec k j) (some v) (lookup j m)
  unfolding lookup insert
  lookup-insert k j v [] = refl
  lookup-insert k j v ((i, w) ∷ m) = ground (arith, lookup-insert k j v m)

  pub lookup-insert_self : (k : String) (v : V) (m : GoMap V) → lookup k (insert k v m) ≡ some v
  lookup-insert_self k v m = ground (arith, lookup-insert k k v m)

  pub lookup-delete :
      (k j : String) (m : GoMap V) → lookup j (delete k m) ≡ ite (str_dec k j) none (lookup j m)
  unfolding lookup delete
  lookup-delete k j [] = ground arith
  lookup-delete k j ((i, w) ∷ m) = ground (arith, lookup-delete k j m)

  pub length-insert :
      (k : String) (v : V) (m : GoMap V)
      → length (insert k v m) ≡ elim (lookup k m) [ none ↦ suc (length m) | some _ ↦ length m ]
  unfolding lookup insert
  length-insert k v [] = refl
  length-insert k v ((i, w) ∷ m) = ground (arith, length-insert k v m)

  pub insert_nonempty : (k : String) (v : V) (m : GoMap V) → (length (insert k v m) == 0) ≡ false
  unfolding insert
  insert_nonempty k v [] = refl
  insert_nonempty k v ((i, w) ∷ m) = ground arith

  pub length-delete-le : (k : String) (m : GoMap V) → length (delete k m) ≤ length m
  unfolding delete
  length-delete-le k [] = omega arith
  length-delete-le k ((i, w) ∷ m) = ground (arith, length-delete-le k m)

  -- No key stands twice.
  abbrev pub IsMap : GoMap V → Type ℓ
  IsMap [] = Unit
  IsMap ((k, v) ∷ m) = (lookup k m ≡ none) × IsMap m

  pub insert-IsMap : (k : String) (v : V) (m : GoMap V) → IsMap m → IsMap (insert k v m)
  unfolding lookup insert
  insert-IsMap k v [] h = (refl, tt)
  insert-IsMap k v ((i, w) ∷ m) h =
      ground (arith, insert-IsMap k v m h.1, lookup-insert k i v m, h.0)

  pub delete-IsMap : (k : String) (m : GoMap V) → IsMap m → IsMap (delete k m)
  unfolding delete
  delete-IsMap k [] h = tt
  delete-IsMap k ((i, w) ∷ m) h = ground (arith, delete-IsMap k m h.1, lookup-delete k i m, h.0)

module _ {ℓ} {V : Type ℓ} (f : String → V → Option V) where
  lookup-range_update-none :
      (j : String) (m : GoMap V) → lookup j m ≡ none → lookup j (range_update f m) ≡ none
  unfolding lookup range_update
  lookup-range_update-none j [] h = refl
  lookup-range_update-none j ((k, v) ∷ m) h = ground (arith, lookup-range_update-none j m)

  pub lookup-range_update :
      (j : String) (m : GoMap V)
      → IsMap m
      → lookup j (range_update f m) ≡ elim (lookup j m) [ none ↦ none | some v ↦ f j v ]
  unfolding lookup range_update
  lookup-range_update j [] h = refl
  lookup-range_update j ((k, v) ∷ m) h =
      ground (arith, lookup-range_update j m h.1, lookup-range_update-none k m h.0)

  pub range_update-IsMap : (m : GoMap V) → IsMap m → IsMap (range_update f m)
  unfolding range_update
  range_update-IsMap [] h = tt
  range_update-IsMap ((k, v) ∷ m) h =
      ground (arith, range_update-IsMap m h.1, lookup-range_update-none k m h.0)

  pub length-range_update-le : (m : GoMap V) → length (range_update f m) ≤ length m
  unfolding range_update
  length-range_update-le [] = omega arith
  length-range_update-le ((k, v) ∷ m) = ground (arith, length-range_update-le m)
