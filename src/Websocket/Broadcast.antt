-- ===== src/Websocket/Broadcast.antt =====
-- The broadcasts of app/websocket/manager.py, the relay between instances, and the reaper.
use metroflow_ai_backend.Common.{
  ℕ, ◌+◌, ◌*◌, Bool, true, not, Option, none, some, List, [], ◌∷◌, map, ltb, if◌then◌else◌, ite,
  length, select,
}
use metroflow_ai_backend.Common.Dict.{Dict, keys, insert}
use metroflow_ai_backend.Websocket.Events.{
  Event, Event-discrete, Reason, send_failed, stale_reaped, Data, Domain,
}
use metroflow_ai_backend.Websocket.Manager.{
  ConnectionManager, Message, Net, already_seen, mark_seen, remember_latest_state, is_user, add_to,
  disconnect,
}

-- `STALE_AFTER_SECONDS`, in milliseconds.
abbrev pub stale_after : ℕ
stale_after = 45 * 1000

module _ (T : Domain) where
  open T use {Socket, User, Uuid, Value, socket_dec, user_dec, id_dec}

  -- A message of `RELAY_CHANNEL`.
  pub record Relay : Type 0 where
    pub origin : Uuid
    pub event_id : Option Uuid
    pub event : Event
    pub body : Data Value
    pub target_user_id : Option User

  -- The texts that a broadcast hands to sockets, the message for the relay, and the manager.
  pub record Sent : Type 0 where
    pub deliveries : List (Socket × Message T)
    pub published : Option Relay
    pub manager : ConnectionManager T

  -- `for connection in stale: self.disconnect(connection, reason=...)`
  unfoldable pub disconnect_all : Reason → List Socket → ConnectionManager T → ConnectionManager T
  disconnect_all reason [] m = m
  disconnect_all reason (ws ∷ stale) m = disconnect_all reason stale (disconnect T reason ws m)

  abbrev pub failed : Net T → List Socket → List Socket
  failed net = select (λ ws. not (net ws))

  unfoldable pub count_failures : Event → ℕ → ConnectionManager T → ConnectionManager T
  count_failures event n m = record m {
    event_send_failures_total = add_to Event-discrete event n m.event_send_failures_total;
  }

  -- `gather` over the targets, and what is done with those whose send failed.
  unfoldable pub send_all : Net T → Event → List Socket → ConnectionManager T → ConnectionManager T
  send_all net event targets m =
      let stale = failed net targets in
      if ltb 0 (length stale)
      then disconnect_all send_failed stale (count_failures event (length stale) m)
      else m

  -- `_event_id or uuid.uuid4().hex`
  abbrev pub or_fresh : Option Uuid → Uuid → Uuid
  or_fresh none fresh = fresh
  or_fresh (some id) fresh = id

  abbrev pub publish :
      Bool → ConnectionManager T → Event → Data Value → Uuid → Option User → Option Relay
  publish from_relay m event body id target =
      if from_relay
      then none
      else some (record {
        origin = m.instance_id;
        event_id = some id;
        event = event;
        body = body;
        target_user_id = target;
      })

  -- `broadcast`
  unfoldable pub broadcast :
      Net T → Uuid → Event → Data Value → Bool → Option Uuid → ConnectionManager T → Sent
  broadcast net fresh event body from_relay event_id m =
      let id = or_fresh event_id fresh in
      if already_seen T (some id) m
      then record { deliveries = []; published = none; manager = m }
      else (let noted = remember_latest_state T event body (mark_seen T (some id) m) in
          record {
            deliveries = map (λ ws. (ws, (event, body))) noted.active_connections;
            published = publish from_relay m event body id none;
            manager = send_all net event noted.active_connections noted;
          })

  -- The sockets of a user, of the connections that have one.
  abbrev pub targets_of : User → Dict Socket (Option User) → List Socket
  targets_of user d = keys (select (λ e. is_user T user e.1) d)

  -- `broadcast_to_user`
  unfoldable pub broadcast_to_user :
      Net T → Uuid → User → Event → Data Value → Bool → Option Uuid → ConnectionManager T → Sent
  broadcast_to_user net fresh user event body from_relay event_id m =
      let id = or_fresh event_id fresh in
      if already_seen T (some id) m
      then record { deliveries = []; published = none; manager = m }
      else (let noted = mark_seen T (some id) m in
          let targets = targets_of user noted.connection_users in
          record {
            deliveries = map (λ ws. (ws, (event, body))) targets;
            published = publish from_relay m event body id (some user);
            manager = send_all net event targets noted;
          })

  -- What `_relay_loop` does with a message: its own are skipped, and all without a loop.
  unfoldable pub relay_message : Net T → Uuid → Relay → ConnectionManager T → Sent
  unfolding broadcast broadcast_to_user
  relay_message net fresh message m =
      let skip : Sent = record { deliveries = []; published = none; manager = m } in
      ite (id_dec message.origin m.instance_id) skip (
        if m.loop
        then elim message.target_user_id [
          | some user ↦
              broadcast_to_user net fresh user message.event message.body true message.event_id m
          | none ↦ broadcast net fresh message.event message.body true message.event_id m
        ]
        else skip)

  -- The connections that `_reap_stale` pings at a time.
  abbrev pub idle_at : ℕ → Dict Socket ℕ → List Socket
  idle_at now d = keys (select (λ e. ltb (e.1 + stale_after) now) d)

  -- The loop of `_reap_stale`.
  unfoldable pub ping_all : ℕ → Net T → List Socket → ConnectionManager T → ConnectionManager T
  ping_all now net [] m = m
  ping_all now net (ws ∷ idle) m = ping_all now net idle (
      if net ws
      then record m { last_seen = insert socket_dec ws now m.last_seen }
      else disconnect T stale_reaped ws m)

  -- `_reap_stale`
  unfoldable pub reap_stale : ℕ → Net T → ConnectionManager T → ConnectionManager T
  unfolding ping_all
  reap_stale now net m = ping_all now net (idle_at now m.last_seen) m
