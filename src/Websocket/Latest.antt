-- ===== src/Websocket/Latest.antt =====
-- The latest state of each station and train, which a new client is sent.
use metroflow_ai_backend.Common.{
  ℕ, or_else, ◌≡◌, ◌∙◌, ap, refl, Bool, true, false, Option, none, some, List, [], ◌∷◌,
  if◌then◌else◌, ite, arith, Option-cases, inl, inr,
}
use metroflow_ai_backend.Common.Dict.{
  Dict, values, lookup, lookup-insert, insert, HasDistinct, insert-HasDistinct,
}
use metroflow_ai_backend.Websocket.Events.{
  Event, Event-discrete, Item, Data, Domain, MergeKey, merge_value, coalesce_merge_key,
}
use metroflow_ai_backend.Websocket.Manager.{
  ConnectionManager, Limits, Net, has_room, connect, Message, remember_items, remember_latest_state,
  bucket_of, send_latest_state,
}

module _ (T : Domain) where
  open T use {Socket, User, Value, value_dec}

  abbrev pub is_for : MergeKey → Value → Item Value → Bool
  is_for merge_key key item = elim (merge_value merge_key item) [
    | none ↦ false
    | some k ↦ ite (value_dec k key) true false
  ]

  -- The last item of a list that is for a key.
  abbrev pub last_for : MergeKey → Value → List (Item Value) → Option (Item Value)
  last_for merge_key key [] = none
  last_for merge_key key (item ∷ items) = elim (last_for merge_key key items) [
    | some later ↦ some later
    | none ↦ if is_for merge_key key item then some item else none
  ]

  pub lookup-remember_items :
      (merge_key : MergeKey) (key : Value) (items : List (Item Value))
      (bucket : Dict Value (Item Value))
      → lookup value_dec key (remember_items T merge_key items bucket)
        ≡ or_else (last_for merge_key key items) (lookup value_dec key bucket)
  unfolding remember_items
  lookup-remember_items merge_key key [] bucket = refl
  lookup-remember_items merge_key key (item ∷ items) bucket =
      elim (Option-cases (merge_value merge_key item)) [
        | inl absent ↦ ground (arith, absent, lookup-remember_items merge_key key items bucket)
        | inr (k, has) ↦ ground (
          arith,
          has,
          lookup-remember_items merge_key key items (insert value_dec k item bucket),
          lookup-insert value_dec k key item bucket,
        )
      ]

  -- What the messages to a client say of an event.
  abbrev pub message_for : Event → List (Message T) → Option (Data Value)
  message_for event [] = none
  message_for event ((other, body) ∷ messages) =
      ite (Event-discrete other event) (some body) (message_for event messages)

  -- A message of the latest state: none for no items.
  abbrev pub state_message : Option Value → Option (Dict Value (Item Value)) → Option (Data Value)
  state_message stamp none = none
  state_message stamp (some []) = none
  state_message stamp (some (e ∷ bucket)) =
      some (record { updates = some (values (e ∷ bucket)); timestamp = stamp; rest = none })

  absent_message :
      (event : Event) (stamps : Dict Event Value) (state : Dict Event (Dict Value (Item Value)))
      → lookup Event-discrete event state ≡ none
      → message_for event (send_latest_state T true stamps state) ≡ none
  unfolding send_latest_state lookup
  absent_message event stamps [] h = refl
  absent_message event stamps ((other, []) ∷ state) h =
      ground (arith, h, absent_message event stamps state)
  absent_message event stamps ((other, e ∷ bucket) ∷ state) h =
      ground (arith, h, absent_message event stamps state)

  pub message_for-send_latest_state :
      (event : Event) (stamps : Dict Event Value) (state : Dict Event (Dict Value (Item Value)))
      → HasDistinct Event-discrete state
      → message_for event (send_latest_state T true stamps state)
        ≡ state_message (lookup Event-discrete event stamps) (lookup Event-discrete event state)
  unfolding send_latest_state lookup
  message_for-send_latest_state event stamps [] h = refl
  message_for-send_latest_state event stamps ((other, []) ∷ state) h = ground (
    arith,
    h.0,
    message_for-send_latest_state event stamps state h.1,
    absent_message event stamps state,
  )
  message_for-send_latest_state event stamps ((other, e ∷ bucket) ∷ state) h =
      ground (arith, h.0, message_for-send_latest_state event stamps state h.1)

  -- What becomes of the remembered state.
  remembered :
      (event : Event) (body : Data Value) (merge_key : MergeKey) (items : List (Item Value))
      (m : ConnectionManager T)
      → coalesce_merge_key event ≡ some merge_key
      → body.updates ≡ some items
      → let bucket = remember_items T merge_key items (bucket_of T event m) in
        ((remember_latest_state T event body m).latest_state
          ≡ insert Event-discrete event bucket m.latest_state)
        × (lookup Event-discrete event (remember_latest_state T event body m).latest_state
            ≡ some bucket)
  unfolding remember_latest_state
  remembered event body merge_key items m merges has = ground (
    arith,
    merges,
    has,
    lookup-insert Event-discrete event event
        (remember_items T merge_key items (bucket_of T event m)) m.latest_state,
  )

  remembered_stamp :
      (event : Event) (body : Data Value) (merge_key : MergeKey) (items : List (Item Value))
      (m : ConnectionManager T)
      → coalesce_merge_key event ≡ some merge_key
      → body.updates ≡ some items
      → lookup Event-discrete event (remember_latest_state T event body m).latest_state_ts
        ≡ or_else body.timestamp (lookup Event-discrete event m.latest_state_ts)
  unfolding remember_latest_state
  remembered_stamp event body merge_key items m merges has = elim (Option-cases body.timestamp) [
    | inl unstamped ↦ ground (arith, merges, has)
    | inr (stamp, stamped) ↦
        ground
          (arith, merges, has, lookup-insert Event-discrete event event stamp m.latest_state_ts)
  ]

  -- A client that connects after a broadcast's updates are remembered is sent one message for that
  -- event. Its items are, for each key, the last item for the key in the updates, or else the item
  -- that was remembered before; its timestamp is the update's, or else the one before.
  pub connect_sends_latest :
      (limits : Limits) (now : ℕ) (net : Net T) (ws : Socket) (user : Option User) (event : Event)
      (body : Data Value) (merge_key : MergeKey) (items : List (Item Value)) (key : Value)
      (m : ConnectionManager T)
      → coalesce_merge_key event ≡ some merge_key
      → body.updates ≡ some items
      → HasDistinct Event-discrete m.latest_state
      → has_room T limits user (remember_latest_state T event body m) ≡ true
      → net ws ≡ true
      → let m' = remember_latest_state T event body m in
        (message_for event (connect T limits now net ws user m').1
          ≡ state_message
              (or_else body.timestamp (lookup Event-discrete event m.latest_state_ts))
              (some (bucket_of T event m')))
        × (lookup value_dec key (bucket_of T event m')
            ≡ or_else (last_for merge_key key items) (lookup value_dec key (bucket_of T event m)))
  unfolding connect
  connect_sends_latest limits now net ws user event body merge_key items key m merges has h room
        sends =
      let m' = remember_latest_state T event body m in
      let known = remembered event body merge_key items m merges has in
      let unchanged : bucket_of T event m'
          ≡ remember_items T merge_key items (bucket_of T event m) =
        rw (known.1, bucket_of) refl in
      let sent : (connect T limits now net ws user m').1
          ≡ send_latest_state T true m'.latest_state_ts m'.latest_state =
        rw (room, connect, sends) refl in
      let stamp = remembered_stamp event body merge_key items m merges has in
      let distinct : HasDistinct Event-discrete m'.latest_state = rw known.0 (
        insert-HasDistinct Event-discrete event
          (remember_items T merge_key items (bucket_of T event m)) m.latest_state h) in
      (
        ap (message_for event) sent
            ∙ message_for-send_latest_state event m'.latest_state_ts m'.latest_state distinct
            ∙ cc (stamp, known.1, unchanged),
        ap (lookup value_dec key) unchanged
            ∙ lookup-remember_items merge_key key items (bucket_of T event m),
      )
