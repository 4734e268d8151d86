-- ===== src/Websocket/Tests.antt =====
-- Runs of the connection manager at concrete inputs, with numbers for sockets, users and ids.
use metroflow_ai_backend.Common.{
  ℕ, ◌≡◌, refl, true, false, not, Option, none, some, List, [], ◌∷◌, map, arith, All, ◌==◌,
  ℕ_discrete,
}
use metroflow_ai_backend.Common.Dict.{lookup, insert, erase}
use metroflow_ai_backend.Websocket.Events.{
  Event-discrete, Reason-discrete, crowd_update, notification, station_id, Item, dict, Data, Domain,
}
use metroflow_ai_backend.Websocket.Manager.{
  ConnectionManager, Limits, Net, already_seen, mark_seen, note_id, remember_items,
  remember_latest_state, bucket_of, send_latest_state, has_room, admit, connect, disconnect,
  per_user,
}
use metroflow_ai_backend.Websocket.Broadcast.{
  Relay, broadcast, broadcast_to_user, relay_message, send_all, disconnect_all, count_failures,
  reap_stale, ping_all,
}
use metroflow_ai_backend.Websocket.Coalesce.{flush_task, buffered, flush_coalesced, notify}
use metroflow_ai_backend.Websocket.Coalesce.Window
use metroflow_ai_backend.Websocket.Dedupe.Once
use metroflow_ai_backend.Websocket.Delivery
use metroflow_ai_backend.Websocket.Delivery.ToUser
use metroflow_ai_backend.Websocket.Latest
use metroflow_ai_backend.Websocket.Limits
use metroflow_ai_backend.Websocket.Limits.Overlap
use metroflow_ai_backend.Websocket.Limits.Steps
use metroflow_ai_backend.Websocket.Reaper
use metroflow_ai_backend.Websocket.Relay as Between
use metroflow_ai_backend.Websocket.RelayLoop

program : Unit {0}
unfolding lookup insert erase Event-discrete Reason-discrete ℕ_discrete already_seen mark_seen
    note_id remember_items remember_latest_state send_latest_state has_room admit connect disconnect
    broadcast broadcast_to_user relay_message send_all disconnect_all count_failures reap_stale
    ping_all Once.deliver Once.deliver_all flush_coalesced notify
program = tt

abbrev names : Domain
names = record {
  Socket = ℕ;
  User = ℕ;
  Uuid = ℕ;
  Value = ℕ;
  null = 0;
  socket_dec = ℕ_discrete;
  user_dec = ℕ_discrete;
  id_dec = ℕ_discrete;
  value_dec = ℕ_discrete;
}

abbrev empty : ℕ → ConnectionManager names
empty id = record {
  active_connections = [];
  connection_users = [];
  last_seen = [];
  loop = true;
  instance_id = id;
  seen_event_ids = [];
  coalesce_buffers = [];
  coalesce_scheduled = [];
  latest_state = [];
  latest_state_ts = [];
  connects_total = 0;
  disconnects_total = [];
  event_send_failures_total = [];
}

-- Two clients: socket 10 of user 1, and the anonymous socket 11.
abbrev two : ConnectionManager names
two = record (empty 100) {
  active_connections = 10 ∷ 11 ∷ [];
  connection_users = (10, some 1) ∷ (11, none) ∷ [];
  last_seen = (10, 1000) ∷ (11, 90000) ∷ [];
}

-- Sends to socket 11 fail.
abbrev net : Net names
net ws = not (ws == 11)

abbrev limits : Limits
limits = record { max_connections = 3; max_connections_per_user = 1 }

abbrev body : Data ℕ
body = record {
  updates = some (dict (some 5) none 50 ∷ dict (some 6) none 60 ∷ dict (some 5) none 51 ∷ []);
  timestamp = some 9;
  rest = none;
}

abbrev event : Option ℕ → Option ℕ → Once.Incoming names
event target id = record {
  net = net;
  fresh = 77;
  target = target;
  event = crowd_update;
  body = body;
  from_relay = false;
  event_id = id;
}

two-Agree : Delivery.Agree names two
unfolding program
two-Agree = record { same = refl; distinct = (refl, (refl, tt)) }

two-IsValid : Limits.IsValid names limits two
unfolding program
two-IsValid = record {
  agree = two-Agree;
  seen = record { distinct = tt; bounded = omega arith };
  capacity = omega arith;
  each_user = λ user. ground arith;
}

deliver_once_example :
    let m' =
      Once.deliver_all names
        (event none (some 4) ∷ [])
        (Once.deliver names (event none (some 3)) two).manager in
    ((Once.deliver names (event (some 1) (some 3)) m').deliveries ≡ [])
    × ((Once.deliver names (event (some 1) (some 3)) m').manager ≡ m')
    × ((Once.deliver names (event (some 1) (some 3)) m').published ≡ none)
unfolding program
deliver_once_example =
    Once.deliver_once names (event none (some 3)) (event (some 1) (some 3))
      (event none (some 4) ∷ []) two (two-IsValid.seen) refl (omega arith) refl

broadcast_reaches_example :
    let sent = broadcast names net 77 crowd_update body false none two in
    (map (λ d. d.0) sent.deliveries ≡ 10 ∷ 11 ∷ [])
    × (sent.manager.connection_users ≡ (10, some 1) ∷ [])
    × (sent.manager.active_connections ≡ 10 ∷ [])
unfolding program
broadcast_reaches_example =
    Delivery.broadcast_reaches names net 77 crowd_update body false none two two-Agree refl

broadcast_to_user_reaches_example :
    let sent = broadcast_to_user names net 77 1 notification body false none two in
    (map (λ d. d.0) sent.deliveries ≡ 10 ∷ [])
    × All (λ d. lookup ℕ_discrete d.0 two.connection_users ≡ some (some 1)) sent.deliveries
    × (sent.manager.connection_users ≡ two.connection_users)
unfolding program
broadcast_to_user_reaches_example =
    ToUser.broadcast_to_user_reaches names net 77 1 notification body false none two two-Agree refl

-- A third client connects, a broadcast drops socket 11, and a reap drops nobody.
abbrev third : ConnectionManager names
third = (connect names limits 95000 net 12 (some 2) two).2

abbrev dropped : ConnectionManager names
dropped = (Once.deliver names (event none (some 3)) third).manager

-- Two connects of one user that wait to be accepted at one time pass the tests for the one place
-- left, and exceed the capacity of 3 and the limit of 1 for each user.
overlap_test :
    let both = Overlap.admit_all names 95000 ((12, some 2) ∷ (13, some 2) ∷ []) two in
    (has_room names limits (some 2) two ≡ true)
    × (both.active_connections ≡ 10 ∷ 11 ∷ 12 ∷ 13 ∷ [])
    × (per_user names 2 both.connection_users ≡ 2)
unfolding program
overlap_test = (refl, refl, refl)

visited : Limits.Reach names limits two (reap_stale names 96000 net dropped)
unfolding program
visited =
    Limits.next
      (Limits.next (Limits.next Limits.here (Limits.connects 95000 net 12 (some 2) refl refl))
        (Limits.delivers (event none (some 3)) refl))
      (Limits.reaps 96000 net refl)

Reach-IsValid_example : Limits.IsValid names limits (reap_stale names 96000 net dropped)
Reach-IsValid_example = Steps.Reach-IsValid names two-IsValid visited

connect_sends_latest_example :
    let m' = remember_latest_state names crowd_update body two in
    (Latest.message_for names crowd_update (connect names limits 95000 net 12 (some 2) m').1
      ≡ some (record {
        updates = some (dict (some 5) none 51 ∷ dict (some 6) none 60 ∷ []);
        timestamp = some 9;
        rest = none;
      }))
    × (lookup ℕ_discrete 5 (bucket_of names crowd_update m') ≡ some (dict (some 5) none 51))
unfolding program
connect_sends_latest_example =
    Latest.connect_sends_latest names limits 95000 net 12 (some 2) crowd_update body station_id
      (dict (some 5) none 50 ∷ dict (some 6) none 60 ∷ dict (some 5) none 51 ∷ []) 5 two refl refl
      tt refl refl

-- The ping to socket 11 goes out to nobody: it was last heard of 50 seconds ago.
reap_stale_lem_example :
    let m' = reap_stale names 140000 net two in
    (lookup ℕ_discrete 11 m'.last_seen ≡ none)
    × (lookup ℕ_discrete 11 m'.connection_users ≡ none)
    × (Reaper.contains names 11 m'.active_connections ≡ false)
unfolding program
reap_stale_lem_example = Reaper.reap_stale_lem names 140000 net 11 two (refl, (refl, tt)) two-Agree

abbrev update : Item ℕ → ℕ → Window.Update names
update item stamp = record { items = item ∷ []; timestamp = some stamp; rest = none }

notify_all-flush_example :
    let us = update (dict (some 6) none 60) 2 ∷ update (dict (some 5) none 51) 3 ∷ [] in
    let (tasks, m') =
      Window.notify_all names crowd_update (update (dict (some 5) none 50) 1 ∷ us) two in
    let by_key = (buffered names crowd_update m').by_key in
    (tasks ≡ flush_task crowd_update ∷ [])
    × ((flush_coalesced names crowd_update m').0
        ≡ Latest.state_message names (some 3) (some by_key))
    × (lookup ℕ_discrete 5 by_key ≡ some (dict (some 5) none 51))
unfolding program
notify_all-flush_example =
    Window.notify_all-flush names crowd_update (update (dict (some 5) none 50) 1)
      (update (dict (some 6) none 60) 2 ∷ update (dict (some 5) none 51) 3 ∷ []) station_id 5 two
      refl refl refl refl

abbrev envelope : Relay names
envelope = record {
  origin = 100;
  event_id = some 3;
  event = crowd_update;
  body = body;
  target_user_id = none;
}

relay_message-deliver_example :
    let other = empty 200 in
    (relay_message names net 88 envelope other
      ≡ Once.deliver names (Between.relayed names net 88 3 (event none (some 3))) other)
    × ((relay_message names net 88 envelope other).published ≡ none)
    × ((relay_message names net 88 envelope two).deliveries ≡ [])
    × ((relay_message names net 88 envelope two).manager ≡ two)
unfolding program
relay_message-deliver_example =
    Between.relay_message-deliver names (event none (some 3)) net 88 two (empty 200) envelope refl
      refl (omega arith)

abbrev rounds : List RelayLoop.Round
rounds = RelayLoop.no_client ∷ RelayLoop.no_client ∷ RelayLoop.session_ends ∷ []
