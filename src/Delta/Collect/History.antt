-- ===== src/Delta/Collect/History.antt =====
-- The cache holds the last change of each object, the snapshot its last live state.
use mathlib.Core.List.{Nodup}
use kvisor.Base.{
  String, GoMap, IsMap, IsKeyed, lookup, insert-IsMap, delete-IsMap, insert-IsKeyed, delete-IsKeyed,
  lookup-insert, lookup-delete, keys-Nodup, uids-values, ◌≡◌, ◌≢◌, refl, subst, sym, ap, ◌∙◌, List,
  [], ◌∷◌, map, Option, none, some, Bool, any, ite, if◌then◌else◌, str_dec, arith, Bool-cases, inl,
  inr,
}
use kvisor.Kube.Object.{Object, get_uid, Event, event_add, event_update, event_delete}
use kvisor.Delta.Item.{
  DeltaItem, type_add, type_update, type_delete, Outside, make_item, to_castai_event,
}
use kvisor.Delta.Collect.{Collector, append, add, to_castai_request}

abbrev pub uid_of : DeltaItem → String
uid_of item = item.object_uid

pub record Inv (d : Collector) : Type 0 where
  pub cache_map : IsMap d.cache
  pub cache_keyed : IsKeyed uid_of d.cache
  pub snapshot_map : IsMap d.snapshot_state
  pub snapshot_keyed : IsKeyed uid_of d.snapshot_state

-- What an item leaves behind for its object.
abbrev pub settled : DeltaItem → Option DeltaItem
settled item = elim item.event [
  | type_add ↦ some (record item { event = type_add })
  | type_update ↦ some (record item { event = type_add })
  | type_delete ↦ none
]

pub lookup-append :
    (k : String) (item : DeltaItem) (state : GoMap DeltaItem)
    → lookup k (append state item) ≡ ite (str_dec item.object_uid k) (settled item) (lookup k state)
unfolding append
lookup-append k item state = ground (
  arith,
  lookup-insert item.object_uid k (record item { event = type_add }) state,
  lookup-delete item.object_uid k state,
)

append-IsMap :
    (item : DeltaItem) (state : GoMap DeltaItem) → IsMap state → IsMap (append state item)
unfolding append
append-IsMap item state h = ground (
  arith,
  insert-IsMap item.object_uid (record item { event = type_add }) state h,
  delete-IsMap item.object_uid state h,
)

append-IsKeyed :
    (item : DeltaItem) (state : GoMap DeltaItem)
    → IsKeyed uid_of state
    → IsKeyed uid_of (append state item)
unfolding append
append-IsKeyed item state h = ground (
  arith,
  insert-IsKeyed uid_of item.object_uid (record item { event = type_add }) state refl h,
  delete-IsKeyed uid_of item.object_uid state h,
)

make_item-uid :
    (out : Outside) (event : Event) (obj : Object)
    → (make_item out event obj).object_uid ≡ get_uid obj
unfolding make_item
make_item-uid out event obj = refl

pub settled-make_item :
    (out : Outside) (event : Event) (obj : Object)
    → event ≢ event_delete
    → settled (make_item out event obj) ≢ none
unfolding make_item to_castai_event
settled-make_item out event_add obj h e = cc
settled-make_item out event_update obj h e = cc
settled-make_item out event_delete obj h e = h refl

abbrev pub skipped : Collector → Object → Bool
skipped d obj = any (λ skipper. skipper obj) d.skippers

-- `add`, whether the object is skipped or not, keeps the cache and the snapshot well formed: each
-- object once, under its own UID.
pub add-Inv :
    (out : Outside) (d : Collector) (event : Event) (obj : Object)
    → Inv d
    → Inv (add out d event obj)
unfolding add
add-Inv out d event obj h = elim (Bool-cases (skipped d obj)) [
  | inl skip ↦ rw skip h
  | inr kept ↦ rw kept (record {
    cache_map = insert-IsMap (get_uid obj) item d.cache h.cache_map;
    cache_keyed =
        insert-IsKeyed uid_of (get_uid obj) item d.cache (make_item-uid out event obj)
          h.cache_keyed;
    snapshot_map = append-IsMap item d.snapshot_state h.snapshot_map;
    snapshot_keyed = append-IsKeyed item d.snapshot_state h.snapshot_keyed;
  })
]
  where
    item : DeltaItem
    item = make_item out event obj

-- A request that a well-formed collector makes names each object once.
pub to_castai_request-Nodup :
    (d : Collector) → Inv d → Nodup (map uid_of (to_castai_request d).items)
unfolding to_castai_request
to_castai_request-Nodup d h =
    subst Nodup (sym (uids-values uid_of d.cache h.cache_keyed)) (keys-Nodup d.cache h.cache_map)

-- An event with what the outside answers as it is handled.
abbrev pub Handled : Type 0
Handled = Outside × (Event × Object)

-- The collector after a series of events.
unfoldable pub run : Collector → List Handled → Collector
run d [] = d
run d ((out, (event, obj)) ∷ evs) = run (add out d event obj) evs

-- The item of the last event about the object with UID `k`; `old` if there was none. The skippers
-- keep some objects out.
module _ (skips : Object → Bool) (k : String) where
  unfoldable pub noted : Option DeltaItem → Handled → Option DeltaItem
  noted old (out, (event, obj)) =
      if skips obj then old else ite (str_dec (get_uid obj) k) (some (make_item out event obj)) old

  unfoldable pub last_item : Option DeltaItem → List Handled → Option DeltaItem
  last_item old [] = old
  last_item old (ev ∷ evs) = last_item (noted old ev) evs

  -- What the last event about the object leaves behind.
  unfoldable pub settles : Option DeltaItem → Handled → Option DeltaItem
  settles old (out, (event, obj)) =
      if skips obj
      then old
      else ite (str_dec (get_uid obj) k) (settled (make_item out event obj)) old

  unfoldable pub last_settled : Option DeltaItem → List Handled → Option DeltaItem
  last_settled old [] = old
  last_settled old (ev ∷ evs) = last_settled (settles old ev) evs

pub lookup-add :
    (out : Outside) (k : String) (d : Collector) (event : Event) (obj : Object)
    → (lookup k (add out d event obj).cache
        ≡ noted (skipped d) k (lookup k d.cache) (out, (event, obj)))
      × (lookup k (add out d event obj).snapshot_state
          ≡ settles (skipped d) k (lookup k d.snapshot_state) (out, (event, obj)))
      × ((add out d event obj).skippers ≡ d.skippers)
unfolding add noted settles
lookup-add out k d event obj = elim (Bool-cases (skipped d obj)) [
  | inl skip ↦ rw skip (refl, refl, refl)
  | inr kept ↦ rw kept (
    lookup-insert (get_uid obj) k (make_item out event obj) d.cache,
    rw (← make_item-uid out event obj) (lookup-append k (make_item out event obj) d.snapshot_state),
    refl,
  )
]

history_from :
    (k : String) (skips : Object → Bool) (evs : List Handled) (d : Collector)
    → skipped d ≡ skips
    → (lookup k (run d evs).cache ≡ last_item skips k (lookup k d.cache) evs)
      × (lookup k (run d evs).snapshot_state ≡ last_settled skips k (lookup k d.snapshot_state) evs)
unfolding run last_item last_settled
history_from k skips [] d e = (refl, refl)
history_from k skips ((out, (event, obj)) ∷ evs) d e =
    let (in_cache, in_snapshot, same) = lookup-add out k d event obj in
    rw
      (
        ← subst
            (λ f.
              lookup k (add out d event obj).cache
              ≡ noted f k (lookup k d.cache) (out, (event, obj)))
            e in_cache,
        ← subst
            (λ f.
              lookup k (add out d event obj).snapshot_state
              ≡ settles f k (lookup k d.snapshot_state) (out, (event, obj)))
            e in_snapshot,
      )
      (history_from k skips evs (add out d event obj)
        (ap (λ l obj. any (λ skipper. skipper obj) l) same ∙ e))

-- Events are debounced: after any series of them the cache holds, for each object, the item of the
-- last event about it, over what it held before; the snapshot holds the object as the last event
-- left it, marked as added, and does not hold it if that event was a deletion. Skipped objects
-- count for neither.
pub run-last_item :
    (k : String) (d : Collector) (evs : List Handled)
    → (lookup k (run d evs).cache ≡ last_item (skipped d) k (lookup k d.cache) evs)
      × (lookup k (run d evs).snapshot_state
          ≡ last_settled (skipped d) k (lookup k d.snapshot_state) evs)
run-last_item k d evs = history_from k (skipped d) evs d refl
