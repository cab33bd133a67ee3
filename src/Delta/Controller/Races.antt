-- ===== src/Delta/Controller/Races.antt =====
-- What is lost when the send loop is disturbed.
use kvisor.Base.{
  [], ◌∷◌, values, Option, not, GoMap, lookup, ◌≡◌, refl, ◌≢◌, none, some, Bool, true, false, arith,
}
use kvisor.Kube.Object.{Object, get_uid, Event, event_delete}
use kvisor.Delta.Item.{DeltaItem, Delta, Outside}
use kvisor.Delta.Collect.{clear, to_castai_request}
use kvisor.Delta.Collect.History.{Inv, skipped, lookup-add, settles, settled-make_item}
use kvisor.Delta.Controller.Delivery.{deliver, lookup-deliver, initialized-send_delta}
use kvisor.Delta.Controller.{Controller, on_event, begin_send, end_send, send_delta}

-- A cache that is not empty makes a request.
some_report :
    (c : Controller) → c.delta.cache ≢ [] → (report : Delta) × ((begin_send c).1 ≡ some report)
unfolding begin_send to_castai_request
some_report c full = go c.delta.cache full
  where
    go :
        (cache : GoMap DeltaItem)
        → cache ≢ []
        → (report : Delta) × (elim (values cache) as (λ _. Option Delta) [
          | [] ↦ none
          | _ ∷ _ ↦ some (record { full_snapshot = not c.initialized; items = values cache })
        ]
            ≡ some report)
    go [] h = absurd (h refl)
    go (entry ∷ cache) h = (_, refl)

module _ (out : Outside) (c : Controller) (known : GoMap DeltaItem) (event : Event)
    (obj : Object) where
  -- The controller after a delivered report, with the event between its two halves; without items
  -- there is no request, and `sendDelta` ends before it clears.
  pub raced : Controller
  unfolding begin_send on_event end_send
  raced = elim (begin_send c).1 [
    | none ↦ on_event out (begin_send c).0 event obj
    | some report ↦ end_send (on_event out (begin_send c).0 event obj) true
  ]

  -- The server after the same report.
  pub served : GoMap DeltaItem
  unfolding to_castai_request
  served = deliver known (to_castai_request c.delta).items

  -- A lost update, of a well-formed collector whose cache is not empty: an object that is not skipped, is new to the cache
  -- and to the server, and whose addition or update arrives after the request was read and before
  -- the client reports success, is in the snapshot, but neither does the server know it nor is it
  -- still to be sent.
  pub event_during_send_lost :
      Inv c.delta
      → event ≢ event_delete
      → skipped c.delta obj ≡ false
      → lookup (get_uid obj) c.delta.cache ≡ none
      → lookup (get_uid obj) known ≡ none
      → c.delta.cache ≢ []
      → (lookup (get_uid obj) served ≡ none)
        × (lookup (get_uid obj) raced.delta.cache ≡ none)
        × (lookup (get_uid obj) raced.delta.snapshot_state ≢ none)
  unfolding served raced clear lookup settles
  event_during_send_lost h added kept uncached unknown full =
      let (report, made) = some_report c full in
      (
        rw (lookup-deliver (get_uid obj) c.delta.cache known h.cache_map h.cache_keyed, uncached)
            unknown,
        rw (raced, made) refl,
        λ gone.
            settled-make_item out event obj added
              (ground (arith, kept, lookup-add out (get_uid obj) c.delta event obj, gone, made)),
      )

-- The mark of a full snapshot is spent by the first round of the send loop, whether its report was
-- delivered, failed, or was not made because there was nothing to send: the next round's report
-- does not carry it.
pub first_round_spends_mark :
    (c : Controller) (delivered : Bool) (report : Delta)
    → (begin_send (send_delta c delivered).0).1 ≡ some report
    → report.full_snapshot ≡ false
unfolding begin_send
first_round_spends_mark c delivered report e = ground (arith, initialized-send_delta c delivered)
