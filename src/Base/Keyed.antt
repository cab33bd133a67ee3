-- ===== src/Base/Keyed.antt =====
-- Maps whose values carry their own key.
use mathlib.Core.Path.{◌≡◌, refl}
use mathlib.Core.List.{
  [], ◌∷◌, map, Mem, Nodup, Nodup-nil, Nodup-cons, not-mem-nil, eq-or-mem_of_mem-cons,
}
use mathlib.Core.Logic.Or
use mathlib.Core.HLevel.{⊥_prop}
use mathlib.Core.Option.{none, some}
use Prim.Native.String.{String}
use native.Mathlib.Omega.{arith}
use kvisor.Base.Maps.{GoMap, lookup, insert, delete, keys, values, IsMap}

abbrev pub IsKeyed {ℓ} : {V : Type ℓ} → (V → String) → GoMap V → Type 0
IsKeyed uid [] = Unit {0}
IsKeyed uid ((k, v) ∷ m) = (uid v ≡ k) × IsKeyed uid m

not-mem-keys {ℓ} : {V : Type ℓ} (k : String) (m : GoMap V) → lookup k m ≡ none → ¬ Mem k (keys m)
unfolding lookup
not-mem-keys k [] h = not-mem-nil
not-mem-keys k ((j, v) ∷ m) h = λ at.
    Or.elim ⊥_prop (eq-or-mem_of_mem-cons at) (λ here. ground arith)
      (not-mem-keys k m (ground arith))

pub keys-Nodup {ℓ} : {V : Type ℓ} (m : GoMap V) → IsMap m → Nodup (keys m)
keys-Nodup [] h = Nodup-nil
keys-Nodup ((k, v) ∷ m) h = Nodup-cons.1 (not-mem-keys k m h.0, keys-Nodup m h.1)

module _ {ℓ} {V : Type ℓ} (uid : V → String) where
  pub insert-IsKeyed :
      (k : String) (v : V) (m : GoMap V) → uid v ≡ k → IsKeyed uid m → IsKeyed uid (insert k v m)
  unfolding insert
  insert-IsKeyed k v [] e h = (e, tt)
  insert-IsKeyed k v ((j, w) ∷ m) e h = ground (arith, insert-IsKeyed k v m e h.1)

  pub delete-IsKeyed : (k : String) (m : GoMap V) → IsKeyed uid m → IsKeyed uid (delete k m)
  unfolding delete
  delete-IsKeyed k [] h = tt
  delete-IsKeyed k ((j, w) ∷ m) h = ground (arith, delete-IsKeyed k m h.1)

  pub lookup-IsKeyed :
      (k : String) (v : V) (m : GoMap V) → IsKeyed uid m → lookup k m ≡ some v → uid v ≡ k
  unfolding lookup
  lookup-IsKeyed k v [] h e = cc
  lookup-IsKeyed k v ((j, w) ∷ m) h e = ground (arith, lookup-IsKeyed k v m h.1)

  -- The values, one by one, have the keys as their own.
  pub uids-values : (m : GoMap V) → IsKeyed uid m → map uid (values m) ≡ keys m
  uids-values [] h = refl
  uids-values ((k, v) ∷ m) h = cc (h.0, uids-values m h.1)
