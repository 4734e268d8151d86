-- ===== src/Websocket/Manager.antt =====
-- `class ConnectionManager` of app/websocket/manager.py: its state, and the calls of one
-- instance on its own connections. Clock readings are milliseconds.
use metroflow_ai_backend.Common.{
  ℕ, ◌+◌, Bool, true, false, Option, none, some, List, [], ◌∷◌, ◌++◌, ltb, leb, if◌then◌else◌, ite,
  is_some, length, remove,
}
use metroflow_ai_backend.Common.Dict.{Dict, values, lookup, insert, erase}
use metroflow_ai_backend.Websocket.Events.{
  Event, Event-discrete, Reason, Reason-discrete, rejected_at_capacity, Item, Data, Domain,
  coalesce_merge_key, merge_value, MergeKey,
}

abbrev pub dedupe_max_entries : ℕ
dedupe_max_entries = 4096

-- `MAX_CONNECTIONS` and `MAX_CONNECTIONS_PER_USER`, from the settings.
pub record Limits : Type 0 where
  pub max_connections : ℕ
  pub max_connections_per_user : ℕ

-- A counter of a dictionary of counters, one higher.
abbrev pub add_to : {K : Type 0} → Discrete K → K → ℕ → Dict K ℕ → Dict K ℕ
add_to dec k n d = insert dec k ((elim (lookup dec k d) [ none ↦ 0 | some c ↦ c ]) + n) d

-- The loop that drops the oldest entries while there are more than the limit.
abbrev pub pop_oldest {ℓ} : {K V : Type ℓ} → ℕ → Dict K V → Dict K V
pop_oldest limit [] = []
pop_oldest limit (e ∷ d) =
    let rest = pop_oldest limit d in if ltb limit (length (e ∷ d)) then rest else e ∷ d

module _ (T : Domain) where
  open T use {Socket, User, Uuid, Value, socket_dec, user_dec, id_dec, value_dec}

  -- The items of one event, by key, as `_coalesce_buffers` has them.
  pub record Bucket : Type 0 where
    pub by_key : Dict Value (Item Value)
    pub timestamp : Option Value

  pub record ConnectionManager : Type 0 where
    pub active_connections : List Socket
    pub connection_users : Dict Socket (Option User)
    pub last_seen : Dict Socket ℕ
    pub loop : Bool
    pub instance_id : Uuid
    pub seen_event_ids : Dict Uuid (Unit {0})
    pub coalesce_buffers : Dict Event Bucket
    pub coalesce_scheduled : List Event
    pub latest_state : Dict Event (Dict Value (Item Value))
    pub latest_state_ts : Dict Event Value
    pub connects_total : ℕ
    pub disconnects_total : Dict Reason ℕ
    pub event_send_failures_total : Dict Event ℕ

  -- What is sent to a client: the event and its data, which `json.dumps` writes.
  abbrev pub Message : Type 0
  Message = Event × Data Value

  -- Whether a text that is sent to a socket now goes out within the timeout.
  abbrev pub Net : Type 0
  Net = Socket → Bool

  -- `_already_seen`
  unfoldable pub already_seen : Option Uuid → ConnectionManager → Bool
  already_seen none m = false
  already_seen (some id) m = is_some (lookup id_dec id m.seen_event_ids)

  -- `_seen_event_ids[id] = None`, `move_to_end(id)`, and the loop that drops the oldest ids.
  unfoldable pub note_id : Uuid → Dict Uuid (Unit {0}) → Dict Uuid (Unit {0})
  note_id id seen =
      pop_oldest dedupe_max_entries (erase id_dec id (insert id_dec id tt seen) ++ (id, tt) ∷ [])

  -- `_mark_seen`
  unfoldable pub mark_seen : Option Uuid → ConnectionManager → ConnectionManager
  unfolding note_id
  mark_seen none m = m
  mark_seen (some id) m = record m { seen_event_ids = note_id id m.seen_event_ids }

  -- The loop of `_remember_latest_state`.
  unfoldable pub remember_items :
      MergeKey → List (Item Value) → Dict Value (Item Value) → Dict Value (Item Value)
  remember_items merge_key [] bucket = bucket
  remember_items merge_key (item ∷ items) bucket = elim (merge_value merge_key item) [
    | none ↦ remember_items merge_key items bucket
    | some key ↦ remember_items merge_key items (insert value_dec key item bucket)
  ]

  abbrev pub bucket_of : Event → ConnectionManager → Dict Value (Item Value)
  bucket_of event m = elim (lookup Event-discrete event m.latest_state) [ none ↦ [] | some b ↦ b ]

  -- `_remember_latest_state`
  unfoldable pub remember_latest_state : Event → Data Value → ConnectionManager → ConnectionManager
  unfolding remember_items
  remember_latest_state event body m = elim (coalesce_merge_key event) [
    | none ↦ m
    | some merge_key ↦ elim body.updates [
      | none ↦ m
      | some items ↦ record m {
        latest_state =
            insert Event-discrete event (remember_items merge_key items (bucket_of event m))
              m.latest_state;
        latest_state_ts = elim body.timestamp [
          | none ↦ m.latest_state_ts
          | some stamp ↦ insert Event-discrete event stamp m.latest_state_ts
        ];
      }
    ]
  ]

  -- `_send_latest_state`: what is sent to a new client whose sends succeed or not.
  unfoldable pub send_latest_state :
      Bool → Dict Event Value → Dict Event (Dict Value (Item Value)) → List Message
  send_latest_state sends stamps [] = []
  send_latest_state sends stamps ((event, []) ∷ buckets) = send_latest_state sends stamps buckets
  send_latest_state sends stamps ((event, e ∷ bucket) ∷ buckets) =
      let message : Message = (
        event,
        record {
          updates = some (values (e ∷ bucket));
          timestamp = lookup Event-discrete event stamps;
          rest = none;
        },
      ) in
      let more = send_latest_state sends stamps buckets in message ∷ (if sends then more else [])

  -- `uid == user_id`, where a connection may have no user.
  abbrev pub is_user : User → Option User → Bool
  is_user user none = false
  is_user user (some other) = ite (user_dec other user) true false

  abbrev pub per_user : User → Dict Socket (Option User) → ℕ
  per_user user [] = 0
  per_user user ((ws, other) ∷ d) =
      let rest = per_user user d in if is_user user other then rest + 1 else rest

  -- The tests at the start of `connect`.
  unfoldable pub has_room : Limits → Option User → ConnectionManager → Bool
  has_room limits user m =
      if leb limits.max_connections (length m.active_connections) then false else elim user [
        | none ↦ true
        | some u ↦ ltb (per_user u m.connection_users) limits.max_connections_per_user
      ]

  -- `_reject`
  reject : ConnectionManager → ConnectionManager
  reject m = record m {
    disconnects_total = add_to Reason-discrete rejected_at_capacity 1 m.disconnects_total;
  }

  -- What `connect` does once the socket is accepted.
  unfoldable pub admit : ℕ → Socket → Option User → ConnectionManager → ConnectionManager
  admit now ws user m = record m {
    active_connections = m.active_connections ++ ws ∷ [];
    connection_users = insert socket_dec ws user m.connection_users;
    last_seen = insert socket_dec ws now m.last_seen;
    connects_total = m.connects_total + 1;
  }

  -- `connect`, with what it sends to the client.
  unfoldable pub connect :
      Limits
      → ℕ
      → Net
      → Socket
      → Option User
      → ConnectionManager
      → Bool × List Message × ConnectionManager
  unfolding has_room reject admit
  connect limits now net ws user m =
      if has_room limits user m
      then (true, send_latest_state (net ws) m.latest_state_ts m.latest_state, admit now ws user m)
      else (false, [], reject m)

  -- `disconnect`
  unfoldable pub disconnect : Reason → Socket → ConnectionManager → ConnectionManager
  disconnect reason ws m = record m {
    active_connections = remove socket_dec ws m.active_connections;
    connection_users = erase socket_dec ws m.connection_users;
    last_seen = erase socket_dec ws m.last_seen;
    disconnects_total = add_to Reason-discrete reason 1 m.disconnects_total;
  }

  -- `record_activity`
  unfoldable pub record_activity : ℕ → Socket → ConnectionManager → ConnectionManager
  record_activity now ws m = record m { last_seen = insert socket_dec ws now m.last_seen }
