-- ===== src/Delta/Controller.antt =====
-- delta/controller.go: informer events and the send loop. `sendDelta` reads the cache, sends with
-- the lock released, and clears: the two halves are steps of their own, so that events may arrive
-- between them.
pub mod Delivery
pub mod Races
pub mod Resync
use kvisor.Base.{List, [], ◌∷◌, ◌++◌, Bool, true, false, not, if◌then◌else◌, Option, none, some}
use kvisor.Kube.Object.{Object, Event}
use kvisor.Delta.Item.{Delta, Outside}
use kvisor.Delta.Collect.{Collector, add, clear, to_castai_request}

pub record Controller : Type 0 where
  pub delta : Collector
  pub initialized : Bool

-- `OnAdd`, `OnUpdate` and `OnDelete`, by the event that they pass on.
unfoldable pub on_event : Outside → Controller → Event → Object → Controller
on_event out c event obj = record c { delta = add out c.delta event obj }

-- `sendDelta` up to the call of the client: the request, unless it is empty. The first request is
-- marked as a full snapshot, and the mark is spent also when nothing is sent.
unfoldable pub begin_send : Controller → Controller × Option Delta
unfolding to_castai_request
begin_send c =
    let request = record (to_castai_request c.delta) { full_snapshot = not c.initialized } in
    (record c { initialized = true }, elim request.items [ [] ↦ none | _ ∷ _ ↦ some request ])

-- `sendDelta` after the call of the client.
unfoldable pub end_send : Controller → Bool → Controller
unfolding clear
end_send c delivered = if delivered then record c { delta = clear c.delta } else c

-- `sendDelta` with nothing happening during the call; `delivered` is the client's answer. The
-- second component is what reached the server.
unfoldable pub send_delta : Controller → Bool → Controller × List Delta
unfolding begin_send end_send
send_delta c delivered =
    let (c', request) = begin_send c in
    elim request [
      | none ↦ (c', [])
      | some report ↦ (end_send c' delivered, if delivered then report ∷ [] else [])
    ]
