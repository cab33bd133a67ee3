-- ===== src/Base/Entries.antt =====
-- A property of all entries of a map.
use mathlib.Core.Path.{◌≡◌, subst}
use mathlib.Core.Logic.{if_pos, if_neg, inl, inr}
use mathlib.Core.List.{[], ◌∷◌}
use mathlib.Core.Option.{Option, some}
use Prim.Native.String.{String}
use native.Mathlib.Omega.{arith}
use kvisor.Base.Tests.{Option-cases}
use kvisor.Base.Text.{str_dec}
use kvisor.Base.Maps.{GoMap, lookup, insert, delete, range_update}

abbrev pub AllEntries {ℓ κ} : {V : Type ℓ} → (String → V → Type κ) → GoMap V → Type κ
AllEntries P [] = Unit
AllEntries P ((k, v) ∷ m) = P k v × AllEntries P m

module _ {ℓ κ} {V : Type ℓ} (P : String → V → Type κ) where
  pub insert-AllEntries :
      (k : String) (v : V) (m : GoMap V) → P k v → AllEntries P m → AllEntries P (insert k v m)
  unfolding insert
  insert-AllEntries k v [] new old = (new, tt)
  insert-AllEntries k v ((j, w) ∷ m) new old = elim (str_dec j k) [
    | yes here ↦ rw (if_pos _ here) (new, old.1)
    | no there ↦ rw (if_neg _ there) (old.0, insert-AllEntries k v m new old.1)
  ]

  pub delete-AllEntries : (k : String) (m : GoMap V) → AllEntries P m → AllEntries P (delete k m)
  unfolding delete
  delete-AllEntries k [] h = tt
  delete-AllEntries k ((j, w) ∷ m) h = elim (str_dec j k) [
    | yes here ↦ rw (if_pos _ here) (delete-AllEntries k m h.1)
    | no there ↦ rw (if_neg _ there) (h.0, delete-AllEntries k m h.1)
  ]

  pub lookup-AllEntries :
      (k : String) (v : V) (m : GoMap V) → AllEntries P m → lookup k m ≡ some v → P k v
  unfolding lookup
  lookup-AllEntries k v [] h e = cc
  lookup-AllEntries k v ((j, w) ∷ m) h e = elim (str_dec j k) [
    | yes here ↦ subst (λ i. P i v) here (subst (P j) (ground arith) h.0)
    | no there ↦ lookup-AllEntries k v m h.1 (ground arith)
  ]

module _ {ℓ κ} {V : Type ℓ} (P : String → V → Type κ) (f : String → V → Option V) where
  -- A loop keeps a property that its body keeps.
  pub range_update-AllEntries :
      ((k : String) (v w : V) → f k v ≡ some w → P k v → P k w)
      → (m : GoMap V) → AllEntries P m
      → AllEntries P (range_update f m)
  unfolding range_update
  range_update-AllEntries body [] h = tt
  range_update-AllEntries body ((k, v) ∷ m) h = elim (Option-cases (f k v)) [
    | inl gone ↦ rw (gone, range_update) (range_update-AllEntries body m h.1)
    | inr (w, kept) ↦
        rw (kept, range_update) (body k v w kept h.0, range_update-AllEntries body m h.1)
  ]
