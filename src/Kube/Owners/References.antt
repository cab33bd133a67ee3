-- ===== src/Kube/Owners/References.antt =====
-- What an owner reference leads to, and the kinds of references.
use kvisor.Base.{
  String, ◌≡◌, ap, ◌≢◌, ◌⊎◌, inl, inr, List, [], ◌∷◌, Option, none, some, str_dec, arith,
}
use mathlib.Core.List.{Mem, mem-cons_self, mem-cons_of_mem, mem-cons, not-mem-nil}
use mathlib.Core.HLevel.{⊥_prop}
use mathlib.Core.Logic.Or
use kvisor.Kube.Object.{OwnerReference, Meta}
use kvisor.Kube.Owners.{
  find_owner_kind, find_next_owner_id, reference_kind, set_reference, replica_set_reference,
  job_reference, other_reference,
}

pub some_not_none {ℓ} : {A : Type ℓ} {a : A} → some a ≢ none
some_not_none e = cc

abbrev pub first {ℓ} : {A : Type ℓ} → List A → Option A
first [] = none
first (x ∷ xs) = some x

-- `id` is the object's own UID, or that of a reference of the expected kind in its list.
abbrev pub NextOwner : Meta → String → String → Type 0
NextOwner m kind id =
    ((m.owner_references ≡ []) × (id ≡ m.uid))
    ⊎ ((ref : OwnerReference) × Mem ref m.owner_references × (ref.kind ≡ kind) × (id ≡ ref.uid))

-- The object is owned, but by nothing of the kind.
abbrev pub NoNextOwner : Meta → String → Type 0
NoNextOwner m kind =
    (m.owner_references ≢ [])
    × ((ref : OwnerReference) → Mem ref m.owner_references → ref.kind ≢ kind)

find_owner_kind-none :
    (kind : String) (refs : List OwnerReference)
    → find_owner_kind kind refs ≡ none
    → (ref : OwnerReference) → Mem ref refs
    → ref.kind ≢ kind
unfolding find_owner_kind
find_owner_kind-none kind [] e r m k = not-mem-nil m
find_owner_kind-none kind (ref ∷ refs) e r m k =
    Or.elim ⊥_prop (mem-cons.0 m) (λ here. ground (arith, e, k, ap (λ x. x.kind) here))
      (λ there. find_owner_kind-none kind refs (ground (arith, e)) r there k)

pub find_next_owner_id-NoNextOwner :
    (m : Meta) (kind : String) (refs : List OwnerReference)
    → m.owner_references ≡ refs
    → find_next_owner_id m kind ≡ none
    → NoNextOwner m kind
unfolding find_next_owner_id
find_next_owner_id-NoNextOwner m kind [] none_owns e = absurd (some_not_none (rw none_owns at e))
find_next_owner_id-NoNextOwner m kind (ref ∷ refs) owned e =
    rw owned (λ h. cc, find_owner_kind-none kind (ref ∷ refs) (rw owned at e))

find_owner_kind-mem :
    (kind : String) (refs : List OwnerReference) (id : String)
    → find_owner_kind kind refs ≡ some id
    → (ref : OwnerReference) × Mem ref refs × (ref.kind ≡ kind) × (id ≡ ref.uid)
unfolding find_owner_kind
find_owner_kind-mem kind [] id e = cc
find_owner_kind-mem kind (ref ∷ refs) id e = elim (str_dec ref.kind kind) [
  | yes same ↦ (ref, mem-cons_self, same, ground arith)
  | no other ↦
      let (r, m, k, u) = find_owner_kind-mem kind refs id (ground arith) in
      (r, mem-cons_of_mem ref m, k, u)
]

pub find_next_owner_id-NextOwner :
    (m : Meta) (kind id : String) (refs : List OwnerReference)
    → m.owner_references ≡ refs
    → find_next_owner_id m kind ≡ some id
    → NextOwner m kind id
unfolding find_next_owner_id
find_next_owner_id-NextOwner m kind id [] none_owns e = inl (none_owns, ground arith)
find_next_owner_id-NextOwner m kind id (ref ∷ refs) owned e =
    inr (rw owned (find_owner_kind-mem kind (ref ∷ refs) id (rw owned at e)))

pub reference_kind-cases :
    (kind : String)
    → ((reference_kind kind ≡ set_reference) × ((kind ≡ "DaemonSet") ⊎ (kind ≡ "StatefulSet")))
      ⊎ ((reference_kind kind ≡ replica_set_reference) × (kind ≡ "ReplicaSet"))
      ⊎ ((reference_kind kind ≡ job_reference) × (kind ≡ "Job"))
      ⊎ ((reference_kind kind ≡ other_reference)
          × (kind ≢ "DaemonSet")
          × (kind ≢ "StatefulSet")
          × (kind ≢ "ReplicaSet")
          × (kind ≢ "Job"))
unfolding reference_kind
reference_kind-cases kind = elim (str_dec kind "DaemonSet") [
  | yes ds ↦ inl (ground arith, inl ds)
  | no a ↦ elim (str_dec kind "StatefulSet") [
    | yes ss ↦ inl (ground arith, inr ss)
    | no b ↦ elim (str_dec kind "ReplicaSet") [
      | yes rs ↦ inr (inl (ground arith, rs))
      | no d ↦ elim (str_dec kind "Job") [
        | yes jb ↦ inr (inr (inl (ground arith, jb)))
        | no f ↦ inr (inr (inr (ground arith, a, b, d, f)))
      ]
    ]
  ]
]
