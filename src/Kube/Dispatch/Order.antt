-- ===== src/Kube/Dispatch/Order.antt =====
-- No event is lost, repeated or reordered among its own sort.
use mathlib.Core.List.{append_assoc, append-nil}
use kvisor.Base.{
  ◌≡◌, refl, subst, List, [], ◌∷◌, ◌++◌, Bool, not, keep, arith, Bool-cases, inl, inr,
}
use kvisor.Kube.Object.{Object, Event}
use kvisor.Kube.Dispatch.{
  Subscription, Signal, received, ticked, is_pod_event, on_signal, serve, idle_subscription,
  arrivals,
}

abbrev pub pods : List (Event × Object) → List (Event × Object)
pods = keep is_pod_event

abbrev pub others : List (Event × Object) → List (Event × Object)
others = keep (λ ev. not (is_pod_event ev))

keep-append {ℓ} :
    {A : Type ℓ} (p : A → Bool) (xs ys : List A) → keep p (xs ++ ys) ≡ keep p xs ++ keep p ys
keep-append p [] ys = refl
keep-append p (x ∷ xs) ys = ground (arith, keep-append p xs ys)

-- The buffer holds pod events only, and what was handled and what is buffered make up the history.
pub record Tracks (s : Subscription) (past : List (Event × Object)) : Type 0 where
  pub buffered_pods : pods s.pods_events_buff ≡ s.pods_events_buff
  pub buffered_others : others s.pods_events_buff ≡ []
  pub pods_in_order : pods s.handled ++ s.pods_events_buff ≡ pods past
  pub others_in_order : others s.handled ≡ others past

on_signal-Tracks :
    (s : Subscription) (past : List (Event × Object)) (x : Signal)
    → Tracks s past
    → Tracks (on_signal s x) (past ++ arrivals (x ∷ []))
unfolding on_signal
on_signal-Tracks s past ticked t = record {
  buffered_pods = refl;
  buffered_others = refl;
  pods_in_order = simp (append-nil, keep-append) (rw t.buffered_pods t.pods_in_order);
  others_in_order = simp (append-nil, keep-append, t.buffered_others, t.others_in_order);
}
on_signal-Tracks s past (received ev) t = elim (Bool-cases (is_pod_event ev)) [
  | inl is_pod ↦ simp is_pod (record {
    buffered_pods = simp (keep-append, t.buffered_pods, is_pod);
    buffered_others = simp (keep-append, t.buffered_others, is_pod);
    pods_in_order = simp (keep-append, ← append_assoc, t.pods_in_order, is_pod);
    others_in_order = simp (keep-append, append-nil, t.others_in_order, is_pod);
  })
  | inr other ↦ simp other (record {
    buffered_pods = t.buffered_pods;
    buffered_others = t.buffered_others;
    pods_in_order = simp (keep-append, append-nil, t.pods_in_order, other);
    others_in_order = simp (keep-append, t.others_in_order, other);
  })
]

serve-Tracks :
    (s : Subscription) (past : List (Event × Object)) (xs : List Signal)
    → Tracks s past
    → Tracks (serve s xs) (past ++ arrivals xs)
unfolding serve
serve-Tracks s past [] t = simp append-nil t
serve-Tracks s past (ticked ∷ xs) t =
    serve-Tracks (on_signal s ticked) past xs
      (subst (Tracks (on_signal s ticked)) (append-nil past) (on_signal-Tracks s past ticked t))
serve-Tracks s past (received ev ∷ xs) t =
    subst (Tracks (serve (on_signal s (received ev)) xs))
      (append_assoc past (ev ∷ []) (arrivals xs))
      (serve-Tracks (on_signal s (received ev)) (past ++ ev ∷ []) xs
        (on_signal-Tracks s past (received ev) t))

serve_idle-Tracks : (xs : List Signal) → Tracks (serve idle_subscription xs) (arrivals xs)
serve_idle-Tracks xs = serve-Tracks idle_subscription [] xs (record {
  buffered_pods = refl;
  buffered_others = refl;
  pods_in_order = refl;
  others_in_order = refl;
})

-- Whatever the order of arrivals and ticks, the subscriber has been given the events that are not
-- about pods exactly as they came, and the pod events as they came up to those still held back,
-- which are the buffer.
pub serve_in_order :
    (xs : List Signal)
    → let s = serve idle_subscription xs in
      (others s.handled ≡ others (arrivals xs))
      × (pods s.handled ++ s.pods_events_buff ≡ pods (arrivals xs))
      × (others s.pods_events_buff ≡ [])
serve_in_order xs =
    let t = serve_idle-Tracks xs in (t.others_in_order, t.pods_in_order, t.buffered_others)

serve-append : (s : Subscription) (xs ys : List Signal) → serve s (xs ++ ys) ≡ serve (serve s xs) ys
unfolding serve
serve-append s [] ys = refl
serve-append s (x ∷ xs) ys = serve-append (on_signal s x) xs ys

-- Right after a tick nothing is held back: every event that came in has been given to the
-- subscriber, once, in order among the pod events and among the others.
pub serve_after_tick :
    (xs : List Signal)
    → let s = serve idle_subscription (xs ++ ticked ∷ []) in
      (s.pods_events_buff ≡ [])
      × (pods s.handled ≡ pods (arrivals xs))
      × (others s.handled ≡ others (arrivals xs))
unfolding serve on_signal
serve_after_tick xs =
    let t = serve_idle-Tracks xs in
    rw (serve-append idle_subscription xs (ticked ∷ [])) (
      refl,
      simp (keep-append, t.buffered_pods, t.pods_in_order),
      simp (keep-append, t.buffered_others, t.others_in_order, append-nil),
    )
