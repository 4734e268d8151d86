-- ===== src/Websocket/Coalesce.antt =====
-- `notify` of app/websocket/manager.py, and the buffers that join the updates of a short window.
pub mod Window
use metroflow_ai_backend.Common.{
  Bool, true, false, ◌&&◌, not, Option, none, some, List, [], ◌∷◌, if◌then◌else◌, ite, is_some,
}
use metroflow_ai_backend.Common.Dict.{Dict, values, lookup, insert, erase}
use metroflow_ai_backend.Websocket.Events.{
  Event, Event-discrete, Item, Data, Domain, MergeKey, merge_value, coalesce_merge_key,
}
use metroflow_ai_backend.Websocket.Manager.{ConnectionManager, Bucket}

abbrev pub contains_event : Event → List Event → Bool
contains_event event [] = false
contains_event event (e ∷ es) = ite (Event-discrete e event) true (contains_event event es)

-- `set.discard`
abbrev pub discard_event : Event → List Event → List Event
discard_event event [] = []
discard_event event (e ∷ es) =
    let rest = discard_event event es in ite (Event-discrete e event) rest (e ∷ rest)

module _ (T : Domain) where
  open T use {User, Value, null, value_dec}

  -- A coroutine handed to the loop by `run_coroutine_threadsafe`.
  pub data Task : Type 0 where
    broadcast_task : Event → Data Value → Task
    broadcast_to_user_task : User → Event → Data Value → Task
    flush_task : Event → Task

  -- `item.get(merge_key) if isinstance(item, dict) else None`
  abbrev pub key_of : MergeKey → Item Value → Value
  key_of merge_key item = elim (merge_value merge_key item) [ none ↦ null | some key ↦ key ]

  -- The loop of `_buffer_for_coalesce`.
  unfoldable pub buffer_items :
      MergeKey → List (Item Value) → Dict Value (Item Value) → Dict Value (Item Value)
  buffer_items merge_key [] by_key = by_key
  buffer_items merge_key (item ∷ items) by_key =
      buffer_items merge_key items (insert value_dec (key_of merge_key item) item by_key)

  abbrev pub buffered : Event → ConnectionManager T → Bucket T
  buffered event m = elim (lookup Event-discrete event m.coalesce_buffers) [
    | none ↦ record { by_key = []; timestamp = none }
    | some bucket ↦ bucket
  ]

  -- The part of `_buffer_for_coalesce` under the lock, but for the flag.
  unfoldable pub fill :
      Event → Data Value → MergeKey → List (Item Value) → ConnectionManager T → ConnectionManager T
  unfolding buffer_items
  fill event body merge_key items m =
      let old = buffered event m in
      record m {
        coalesce_buffers =
            insert Event-discrete event
              (record {
                by_key = buffer_items merge_key items old.by_key;
                timestamp = elim body.timestamp [ none ↦ old.timestamp | some stamp ↦ some stamp ];
              })
              m.coalesce_buffers;
      }

  -- `_buffer_for_coalesce`: the task that it starts, if any. `accepts` is false where the loop is
  -- closed and `run_coroutine_threadsafe` raises.
  unfoldable pub buffer_for_coalesce :
      Bool
      → Event
      → Data Value
      → MergeKey
      → List (Item Value)
      → ConnectionManager T
      → List Task × ConnectionManager T
  buffer_for_coalesce accepts event body merge_key items m =
      let filled = fill event body merge_key items m in
      if contains_event event filled.coalesce_scheduled
      then ([], filled)
      else if accepts
      then (
        flush_task event ∷ [],
        record filled { coalesce_scheduled = event ∷ filled.coalesce_scheduled },
      )
      else (
        [],
        record filled {
          coalesce_scheduled = discard_event event (event ∷ filled.coalesce_scheduled);
        },
      )

  -- `notify`
  unfoldable pub notify :
      Bool → Event → Data Value → ConnectionManager T → List Task × ConnectionManager T
  unfolding buffer_for_coalesce
  notify accepts event body m =
      let direct : List Task × ConnectionManager T =
        (if accepts then broadcast_task event body ∷ [] else [], m) in
      if not m.loop then ([], m) else elim (coalesce_merge_key event) [
        | none ↦ direct
        | some merge_key ↦ elim body.updates [
          | none ↦ direct
          | some items ↦ buffer_for_coalesce accepts event body merge_key items m
        ]
      ]

  -- `notify_user`
  notify_user : Bool → User → Event → Data Value → ConnectionManager T → List Task
  notify_user accepts user event body m =
      if m.loop && accepts then broadcast_to_user_task user event body ∷ [] else []

  -- `_flush_coalesced_after_delay`, once the delay is over: what it broadcasts, if anything.
  unfoldable pub flush_coalesced :
      Event → ConnectionManager T → Option (Data Value) × ConnectionManager T
  flush_coalesced event m =
      let bucket = buffered event m in
      let merged : Option (Data Value) = elim bucket.by_key [
        | [] ↦ none
        | item ∷ items ↦ some (record {
          updates = some (values (item ∷ items));
          timestamp = bucket.timestamp;
          rest = none;
        })
      ] in
      (
        merged,
        record m {
          coalesce_buffers = erase Event-discrete event m.coalesce_buffers;
          coalesce_scheduled = discard_event event m.coalesce_scheduled;
        },
      )
