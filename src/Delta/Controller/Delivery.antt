-- ===== src/Delta/Controller/Delivery.antt =====
-- What the server knows, if no event arrives while a report is being sent.
use kvisor.Base.{
  String, GoMap, IsMap, IsKeyed, lookup, values, ◌≡◌, refl, List, [], ◌∷◌, none, some, Bool, true,
  false, not, if◌then◌else◌, arith, inl, inr, ◌⊎◌,
}
use kvisor.Kube.Object.{Object, Event}
use kvisor.Delta.Item.{DeltaItem, Delta, Outside}
use kvisor.Delta.Collect.{append, new_delta, to_castai_request, clear}
use kvisor.Delta.Collect.History.{uid_of, settled, lookup-append, Inv}
use kvisor.Delta.Controller.{Controller, on_event, begin_send, end_send, send_delta}

-- The reader of the reports: it applies items in order, and a full snapshot replaces what it knew.
abbrev pub deliver : GoMap DeltaItem → List DeltaItem → GoMap DeltaItem
deliver known [] = known
deliver known (item ∷ items) = deliver (append known item) items

abbrev pub receive : GoMap DeltaItem → List Delta → GoMap DeltaItem
receive known [] = known
receive known (report ∷ reports) =
    receive (deliver (if report.full_snapshot then [] else known) report.items) reports

-- What a request leaves behind: for an object in it, what its item says; otherwise what was known.
pub lookup-deliver :
    (k : String) (m : GoMap DeltaItem) (known : GoMap DeltaItem)
    → IsMap m
    → IsKeyed uid_of m
    → lookup k (deliver known (values m))
      ≡ elim (lookup k m) [ none ↦ lookup k known | some item ↦ settled item ]
unfolding lookup
lookup-deliver k [] known h g = refl
lookup-deliver k ((j, item) ∷ m) known h g =
    ground
      (arith, lookup-deliver k m (append known item) h.1 g.1, lookup-append k item known, h.0, g.0)

pub data Signal : Type 0 where
  event : Outside → Event → Object → Signal
  sends : Bool → Signal

-- The controller and what the server knows.
abbrev pub System : Type 0
System = Controller × GoMap DeltaItem

-- One informer event, with what the outside answers as it is handled, or one round of the send loop that succeeds or fails.
pub step : System → Signal → System
step (c, known) (event out e obj) = (on_event out c e obj, known)
step (c, known) (sends delivered) =
    let (c', reports) = send_delta c delivered in (c', receive known reports)

pub run : System → List Signal → System
run s [] = s
run s (x ∷ xs) = run (step s x) xs

values-cases :
    (m : GoMap DeltaItem)
    → (values m ≡ []) ⊎ ((x : DeltaItem) × (xs : List DeltaItem) × (values m ≡ x ∷ xs))
values-cases [] = inl refl
values-cases ((k, x) ∷ m) = inr (x, values m, refl)

-- The server knows the snapshot, but for the pending cache.
pub record InStep (s : System) : Type 0 where
  pub well_formed : Inv s.0.delta
  pub fresh : s.0.initialized ≡ false → s.1 ≡ []
  pub pending :
      (k : String)
      → lookup k s.0.delta.snapshot_state
        ≡ elim (lookup k s.0.delta.cache) [ none ↦ lookup k s.1 | some item ↦ settled item ]

module _ (c : Controller) where
  attempted : Controller
  attempted = record c { initialized = true }

  emptied : Controller
  emptied = record { delta = record c.delta { cache = [] }; initialized = true }

  send_delta-quiet :
      (delivered : Bool)
      → (values c.delta.cache ≡ []) ⊎ (delivered ≡ false)
      → send_delta c delivered ≡ (attempted, [])
  unfolding send_delta begin_send end_send attempted
  send_delta-quiet delivered (inl empty) = rw (empty, send_delta) refl
  send_delta-quiet delivered (inr failed) = ground arith

  send_delta-delivered :
      {x : DeltaItem} {xs : List DeltaItem}
      → values c.delta.cache ≡ x ∷ xs
      → send_delta c true
        ≡ (emptied, record { full_snapshot = not c.initialized; items = values c.delta.cache } ∷ [])
  unfolding send_delta begin_send end_send emptied clear to_castai_request
  send_delta-delivered full = ground arith

abbrev pub started : System
started = (record { delta = new_delta []; initialized = false }, [])

pub initialized-send_delta :
    (c : Controller) (delivered : Bool) → (send_delta c delivered).0.initialized ≡ true
initialized-send_delta c delivered = go (values-cases c.delta.cache) delivered
  where
    go :
        (values c.delta.cache ≡ [])
          ⊎ ((x : DeltaItem) × (xs : List DeltaItem) × (values c.delta.cache ≡ x ∷ xs))
        → (delivered : Bool) → (send_delta c delivered).0.initialized ≡ true
    go (inl empty) delivered =
        rw (send_delta-quiet c delivered (inl empty)) (unfold attempted in refl)
    go full false = rw (send_delta-quiet c false (inr refl)) (unfold attempted in refl)
    go (inr (x, xs, full)) true = rw (send_delta-delivered c full) (unfold emptied in refl)
