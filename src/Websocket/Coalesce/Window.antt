-- ===== src/Websocket/Coalesce/Window.antt =====
-- A window of updates: everything that is notified is flushed, once and with the last item per key.
use metroflow_ai_backend.Common.{
  or_else, or_else-none, ◌≡◌, ◌∙◌, ap, sym, refl, true, false, Option, none, some, List, [], ◌∷◌,
  ◌++◌, if◌then◌else◌, ite, arith,
}
use metroflow_ai_backend.Common.Dict.{Dict, lookup, lookup-insert, insert}
use metroflow_ai_backend.Websocket.Events.{
  Event, Event-discrete, Item, Data, Domain, MergeKey, coalesce_merge_key,
}
use metroflow_ai_backend.Websocket.Manager.{ConnectionManager}
use metroflow_ai_backend.Websocket.Latest.{state_message}
use metroflow_ai_backend.Websocket.Coalesce.{
  Task, flush_task, key_of, buffer_items, buffered, fill, buffer_for_coalesce, notify,
  contains_event, flush_coalesced,
}

module _ (T : Domain) where
  open T use {Value, value_dec}

  -- The last item of a list with a key.
  abbrev pub last_keyed : MergeKey → Value → List (Item Value) → Option (Item Value)
  last_keyed merge_key key [] = none
  last_keyed merge_key key (item ∷ items) =
      or_else (last_keyed merge_key key items)
        (ite (value_dec (key_of T merge_key item) key) (some item) none)

  -- Notifications of lists of updates, all with the loop open.
  pub record Update : Type 0 where
    pub items : List (Item Value)
    pub timestamp : Option Value
    pub rest : Option Value

  abbrev pub body_of : Update → Data Value
  body_of u = record { updates = some u.items; timestamp = u.timestamp; rest = u.rest }

  abbrev pub all_items : List Update → List (Item Value)
  all_items [] = []
  all_items (u ∷ us) = u.items ++ all_items us

  abbrev pub last_stamp : List Update → Option Value
  last_stamp [] = none
  last_stamp (u ∷ us) = or_else (last_stamp us) u.timestamp

  pub notify_all : Event → List Update → ConnectionManager T → List (Task T) × ConnectionManager T
  notify_all event [] m = ([], m)
  notify_all event (u ∷ us) m =
      let (tasks, m') = notify T true event (body_of u) m in
      let (more, m'') = notify_all event us m' in (tasks ++ more, m'')

  last_keyed-append :
      (merge_key : MergeKey) (key : Value) (xs ys : List (Item Value))
      → last_keyed merge_key key (xs ++ ys)
        ≡ or_else (last_keyed merge_key key ys) (last_keyed merge_key key xs)
  last_keyed-append merge_key key [] ys = ground arith
  last_keyed-append merge_key key (x ∷ xs) ys =
      ground (arith, last_keyed-append merge_key key xs ys)

  lookup-buffer_items :
      (merge_key : MergeKey) (key : Value) (items : List (Item Value))
      (by_key : Dict Value (Item Value))
      → lookup value_dec key (buffer_items T merge_key items by_key)
        ≡ or_else (last_keyed merge_key key items) (lookup value_dec key by_key)
  unfolding buffer_items
  lookup-buffer_items merge_key key [] by_key = refl
  lookup-buffer_items merge_key key (item ∷ items) by_key = ground (
    arith,
    lookup-buffer_items merge_key key items
        (insert value_dec (key_of T merge_key item) item by_key),
    lookup-insert value_dec (key_of T merge_key item) key item by_key,
  )

  -- One notification of an event that is merged.
  record Notified (event : Event) (u : Update) (merge_key : MergeKey) (m : ConnectionManager T)
      (r : List (Task T) × ConnectionManager T) : Type 0 where
    loop : r.1.loop ≡ m.loop
    scheduled : contains_event event r.1.coalesce_scheduled ≡ true
    tasks : r.0 ≡ (if contains_event event m.coalesce_scheduled then [] else flush_task event ∷ [])
    by_key :
        (buffered T event r.1).by_key ≡ buffer_items T merge_key u.items (buffered T event m).by_key
    timestamp :
        (buffered T event r.1).timestamp ≡ or_else u.timestamp (buffered T event m).timestamp

  notified :
      (event : Event) (u : Update) (merge_key : MergeKey) (m : ConnectionManager T)
      → coalesce_merge_key event ≡ some merge_key
      → m.loop ≡ true
      → Notified event u merge_key m (notify T true event (body_of u) m)
  unfolding notify buffer_for_coalesce fill
  notified event u merge_key m merges bound =
      let old = buffered T event m in
      let put =
        lookup-insert Event-discrete event event
          (record {
            by_key = buffer_items T merge_key u.items old.by_key;
            timestamp = elim u.timestamp [ none ↦ old.timestamp | some stamp ↦ some stamp ];
          })
          m.coalesce_buffers in
      record {
        loop = ground (arith, merges, bound);
        scheduled = ground (arith, merges, bound);
        tasks = ground (arith, merges, bound);
        by_key = ground (arith, merges, bound, put);
        timestamp = ground (arith, merges, bound, put);
      }

  buffer_items-append :
      (merge_key : MergeKey) (xs ys : List (Item Value)) (by_key : Dict Value (Item Value))
      → buffer_items T merge_key (xs ++ ys) by_key
        ≡ buffer_items T merge_key ys (buffer_items T merge_key xs by_key)
  unfolding buffer_items
  buffer_items-append merge_key [] ys by_key = refl
  buffer_items-append merge_key (x ∷ xs) ys by_key =
      buffer_items-append merge_key xs ys (insert value_dec (key_of T merge_key x) x by_key)

  -- Notifications of an event whose flush is on its way.
  record Joined (event : Event) (us : List Update) (merge_key : MergeKey) (m : ConnectionManager T)
      (r : List (Task T) × ConnectionManager T) : Type 0 where
    tasks : r.0 ≡ []
    by_key :
        (buffered T event r.1).by_key
        ≡ buffer_items T merge_key (all_items us) (buffered T event m).by_key
    timestamp :
        (buffered T event r.1).timestamp ≡ or_else (last_stamp us) (buffered T event m).timestamp

  joined :
      (event : Event) (us : List Update) (merge_key : MergeKey) (m : ConnectionManager T)
      → coalesce_merge_key event ≡ some merge_key
      → m.loop ≡ true
      → contains_event event m.coalesce_scheduled ≡ true
      → Joined event us merge_key m (notify_all event us m)
  unfolding notify_all buffer_items
  joined event [] merge_key m merges bound waiting = record {
    tasks = refl;
    by_key = refl;
    timestamp = refl;
  }
  joined event (u ∷ us) merge_key m merges bound waiting =
      let first = notified event u merge_key m merges bound in
      let m' = (notify T true event (body_of u) m).1 in
      let rest = joined event us merge_key m' merges (first.loop ∙ bound) first.scheduled in
      record {
        tasks = ground (arith, first.tasks, rest.tasks, waiting);
        by_key =
            rest.by_key
            ∙ ap (buffer_items T merge_key (all_items us)) first.by_key
            ∙ sym
                (buffer_items-append merge_key u.items (all_items us) (buffered T event m).by_key);
        timestamp = ground (arith, rest.timestamp, first.timestamp);
      }

  flush_lem :
      (event : Event) (m : ConnectionManager T) (stamp : Option Value)
      → (buffered T event m).timestamp ≡ stamp
      → (flush_coalesced T event m).0 ≡ state_message T stamp (some (buffered T event m).by_key)
  unfolding flush_coalesced
  flush_lem event m stamp h = ground (arith, h)

  -- Updates of a merged event that are notified within one window, the first of which finds no
  -- buffer and no flush on its way, start one flush and no other task; the flush broadcasts the last
  -- item of each key in all the updates, with the last timestamp.
  pub notify_all-flush :
      (event : Event) (u : Update) (us : List Update) (merge_key : MergeKey) (key : Value)
      (m : ConnectionManager T)
      → coalesce_merge_key event ≡ some merge_key
      → m.loop ≡ true
      → lookup Event-discrete event m.coalesce_buffers ≡ none
      → contains_event event m.coalesce_scheduled ≡ false
      → let (tasks, m') = notify_all event (u ∷ us) m in
        let by_key = (buffered T event m').by_key in
        (tasks ≡ flush_task event ∷ [])
        × ((flush_coalesced T event m').0 ≡ state_message T (last_stamp (u ∷ us)) (some by_key))
        × (lookup value_dec key by_key ≡ last_keyed merge_key key (all_items (u ∷ us)))
  unfolding notify_all lookup
  notify_all-flush event u us merge_key key m merges bound empty idle =
      let first = notified event u merge_key m merges bound in
      let m1 = (notify T true event (body_of u) m).1 in
      let rest = joined event us merge_key m1 merges (first.loop ∙ bound) first.scheduled in
      let m' = (notify_all event us m1).1 in
      let fresh_keys : (buffered T event m).by_key ≡ [] = rw (empty, buffered) refl in
      let fresh_stamp : (buffered T event m).timestamp ≡ none = rw (empty, buffered) refl in
      let stamp : (buffered T event m').timestamp ≡ last_stamp (u ∷ us) =
        ground (arith, rest.timestamp, first.timestamp, fresh_stamp) in
      let keyed : (buffered T event m').by_key ≡ buffer_items T merge_key (all_items (u ∷ us)) [] =
        rest.by_key
        ∙ ap (buffer_items T merge_key (all_items us)) first.by_key
        ∙ sym (buffer_items-append merge_key u.items (all_items us) (buffered T event m).by_key)
        ∙ ap (buffer_items T merge_key (all_items (u ∷ us))) fresh_keys in
      (
        ground (arith, first.tasks, rest.tasks, idle),
        flush_lem event m' (last_stamp (u ∷ us)) stamp,
        ap (lookup value_dec key) keyed
            ∙ lookup-buffer_items merge_key key (all_items (u ∷ us)) []
            ∙ or_else-none (last_keyed merge_key key (all_items (u ∷ us))),
      )
