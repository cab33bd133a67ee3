-- ===== src/Kube/Dispatch.antt =====
-- kube/controller.go: the goroutine that `eventsHandler` starts for each subscriber. Pod events are
-- held back until a tick; all others go to the subscriber at once.
pub mod Order
use kvisor.Base.{
  ◌≡◌, refl, ap, sym, ◌∙◌, List, [], ◌∷◌, ◌++◌, Bool, true, false, not, if◌then◌else◌, eq_str, keep,
  arith, Bool-cases, inl, inr,
}
use kvisor.Kube.Object.{Object, get_meta, Event}

-- The pod events buffer, and the events given to the subscriber's handler so far.
pub record Subscription : Type 0 where
  pub pods_events_buff : List (Event × Object)
  pub handled : List (Event × Object)

pub data Signal : Type 0 where
  received : Event × Object → Signal
  ticked : Signal

abbrev pub is_pod_event : Event × Object → Bool
is_pod_event (_, obj) = eq_str (get_meta obj).kind "Pod"

-- One round of the `select`, without the exit on `ctx.Done()`.
unfoldable pub on_signal : Subscription → Signal → Subscription
on_signal s (received ev) =
    if is_pod_event ev
    then record s { pods_events_buff = s.pods_events_buff ++ ev ∷ [] }
    else record s { handled = s.handled ++ ev ∷ [] }
on_signal s ticked = record s { pods_events_buff = []; handled = s.handled ++ s.pods_events_buff }

unfoldable pub serve : Subscription → List Signal → Subscription
serve s [] = s
serve s (x ∷ xs) = serve (on_signal s x) xs

abbrev pub idle_subscription : Subscription
idle_subscription = record { pods_events_buff = []; handled = [] }

-- The events that came in, in order.
abbrev pub arrivals : List Signal → List (Event × Object)
arrivals [] = []
arrivals (received ev ∷ xs) = ev ∷ arrivals xs
arrivals (ticked ∷ xs) = arrivals xs
