-- ===== src/Delta/Controller/Resync.antt =====
-- delta/snapshot.go: a full resync restores what the server knows.
use kvisor.Base.{
  String, GoMap, AllEntries, insert-AllEntries, delete-AllEntries, lookup-AllEntries, lookup, ◌≡◌,
  refl, ◌∙◌, List, [], ◌∷◌, Option, none, some, true, Bool-cases, Option-cases, inl, inr,
}
use kvisor.Kube.Object.{Object, Event}
use kvisor.Delta.Item.{EventType, type_add, type_update, type_delete, DeltaItem, Outside, make_item}
use kvisor.Delta.Collect.{Collector, new_delta, append, snapshot, add, resync}
use kvisor.Delta.Collect.History.{Handled, Inv, add-Inv, run, settled, skipped}
use kvisor.Delta.Controller.Delivery.{receive, lookup-deliver}

-- The snapshot holds additions only.
abbrev Added : String → DeltaItem → Type 0
Added k item = item.event ≡ type_add

append-Added :
    (state : GoMap DeltaItem) (item : DeltaItem) (event : EventType)
    → item.event ≡ event
    → AllEntries Added state
    → AllEntries Added (append state item)
unfolding append
append-Added state item type_add e h =
    rw (e, append) (insert-AllEntries Added item.object_uid _ state refl h)
append-Added state item type_update e h =
    rw (e, append) (insert-AllEntries Added item.object_uid _ state refl h)
append-Added state item type_delete e h =
    rw (e, append) (delete-AllEntries Added item.object_uid state h)

add-Added :
    (out : Outside) (d : Collector) (event : Event) (obj : Object)
    → AllEntries Added d.snapshot_state
    → AllEntries Added (add out d event obj).snapshot_state
unfolding add
add-Added out d event obj h = elim (Bool-cases (skipped d obj)) [
  | inl skip ↦ rw skip h
  | inr kept ↦ rw kept (append-Added d.snapshot_state (make_item out event obj) _ refl h)
]

run-keeps :
    (evs : List Handled) (d : Collector)
    → Inv d × AllEntries Added d.snapshot_state
    → Inv (run d evs) × AllEntries Added (run d evs).snapshot_state
unfolding run
run-keeps [] d h = h
run-keeps ((out, (event, obj)) ∷ evs) d (good, added) =
    run-keeps evs (add out d event obj)
      (add-Inv out d event obj good, add-Added out d event obj added)

settled-Added : (item : DeltaItem) → item.event ≡ type_add → settled item ≡ some item
settled-Added item e = rw e refl

-- After any series of events, a full resync, whatever the server knew before, makes it know exactly
-- what the snapshot says, for every object.
pub resync_restores :
    (evs : List Handled) (known : GoMap DeltaItem) (k : String)
    → let state = (run (new_delta []) evs).snapshot_state in
      lookup k (receive known (resync true state)) ≡ lookup k state
unfolding resync snapshot lookup
resync_restores evs known k =
    let (good, added) =
      run-keeps evs (new_delta [])
        (record { cache_map = tt; cache_keyed = tt; snapshot_map = tt; snapshot_keyed = tt }, tt) in
    let state = (run (new_delta []) evs).snapshot_state in
    lookup-deliver k state [] good.snapshot_map good.snapshot_keyed ∙ restored state added
  where
    restored :
        (state : GoMap DeltaItem)
        → AllEntries Added state
        → elim (lookup k state) as (λ _. Option DeltaItem) [
          | none ↦ none
          | some item ↦ settled item
        ]
          ≡ lookup k state
    restored state added = elim (Option-cases (lookup k state)) [
      | inl gone ↦ rw gone refl
      | inr (item, there) ↦
          rw there (settled-Added item (lookup-AllEntries Added k item state added there))
    ]
