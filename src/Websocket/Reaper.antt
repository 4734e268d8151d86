-- ===== src/Websocket/Reaper.antt =====
-- What a reap leaves, and what the relay does with events between instances.
use metroflow_ai_backend.Common.{
  ℕ, ◌+◌, ◌≡◌, ◌∙◌, refl, Bool, true, false, ◌&&◌, not, Option, none, some, List, [], ◌∷◌,
  if◌then◌else◌, ite, arith, ltb, is_some, ap,
}
use metroflow_ai_backend.Common.Dict.{
  Dict, keys, lookup, insert, HasDistinct, lookup-insert, lookup-erase_ne, lookup-erase_self,
  insert-HasDistinct, erase-HasDistinct,
}
use metroflow_ai_backend.Websocket.Events.{stale_reaped, Domain}
use metroflow_ai_backend.Websocket.Manager.{ConnectionManager, Net, disconnect}
use metroflow_ai_backend.Websocket.Delivery.{Agree}
use metroflow_ai_backend.Websocket.Limits.Steps.{ping_all-Shrinks}
use metroflow_ai_backend.Websocket.Broadcast.{ping_all, reap_stale, idle_at, stale_after}

module _ (T : Domain) where
  open T use {Socket, User, Uuid, Value, socket_dec}

  abbrev pub contains : Socket → List Socket → Bool
  contains ws [] = false
  contains ws (x ∷ xs) = ite (socket_dec x ws) true (contains ws xs)

  -- Whether a time is too long ago.
  abbrev pub is_stale : ℕ → Option ℕ → Bool
  is_stale now none = false
  is_stale now (some t) = ltb (t + stale_after) now

  contains_absent :
      (now : ℕ) (ws : Socket) (d : Dict Socket ℕ)
      → lookup socket_dec ws d ≡ none
      → contains ws (idle_at T now d) ≡ false
  unfolding lookup
  contains_absent now ws [] h = refl
  contains_absent now ws ((other, t) ∷ d) h = ground (arith, h, contains_absent now ws d)

  contains-idle_at :
      (now : ℕ) (ws : Socket) (d : Dict Socket ℕ)
      → HasDistinct socket_dec d
      → contains ws (idle_at T now d) ≡ is_stale now (lookup socket_dec ws d)
  unfolding lookup
  contains-idle_at now ws [] h = refl
  contains-idle_at now ws ((other, t) ∷ d) h =
      ground (arith, h.0, contains-idle_at now ws d h.1, contains_absent now ws d)

  -- One round of the loop of `_reap_stale`.
  abbrev pinged : ℕ → Net T → Socket → ConnectionManager T → ConnectionManager T
  pinged now net x m =
      if net x
      then record m { last_seen = insert socket_dec x now m.last_seen }
      else disconnect T stale_reaped x m

  record Pinged (now : ℕ) (net : Net T) (ws x : Socket) (m m' : ConnectionManager T) : Type 0 where
    times : HasDistinct socket_dec m'.last_seen
    users : HasDistinct socket_dec m'.connection_users
    time_at :
        lookup socket_dec ws m'.last_seen
        ≡ ite
            (socket_dec x ws)
            (if net ws then some now else none)
            (lookup socket_dec ws m.last_seen)
    user_at :
        lookup socket_dec ws m'.connection_users
        ≡ ite
            (socket_dec x ws)
            (if net ws then lookup socket_dec ws m.connection_users else none)
            (lookup socket_dec ws m.connection_users)

  pinged_lem :
      (now : ℕ) (net : Net T) (ws x : Socket) (m : ConnectionManager T)
      → HasDistinct socket_dec m.last_seen
      → HasDistinct socket_dec m.connection_users
      → Pinged now net ws x m (pinged now net x m)
  unfolding disconnect
  pinged_lem now net ws x m h h' = record {
    times = ground (
      arith,
      h,
      insert-HasDistinct socket_dec x now m.last_seen h,
      erase-HasDistinct socket_dec x m.last_seen h,
    );
    users = ground (arith, h', erase-HasDistinct socket_dec x m.connection_users h');
    time_at = ground (
      arith,
      lookup-insert socket_dec x ws now m.last_seen,
      lookup-erase_ne socket_dec x ws m.last_seen,
      lookup-erase_self socket_dec x m.last_seen h,
    );
    user_at = ground (
      arith,
      lookup-erase_ne socket_dec x ws m.connection_users,
      lookup-erase_self socket_dec x m.connection_users h',
    );
  }

  -- The two dictionaries after the pings, at a socket.
  ping_all_lem :
      (now : ℕ) (net : Net T) (ws : Socket) (idle : List Socket) (m : ConnectionManager T)
      → HasDistinct socket_dec m.last_seen
      → HasDistinct socket_dec m.connection_users
      → let m' = ping_all T now net idle m in
        (lookup socket_dec ws m'.last_seen ≡ (
          if contains ws idle
          then if net ws then some now else none
          else lookup socket_dec ws m.last_seen))
        × (lookup socket_dec ws m'.connection_users ≡ (
            if contains ws idle
            then if net ws then lookup socket_dec ws m.connection_users else none
            else lookup socket_dec ws m.connection_users))
  unfolding ping_all disconnect
  ping_all_lem now net ws [] m h h' = (refl, refl)
  ping_all_lem now net ws (x ∷ idle) m h h' =
      let k = pinged_lem now net ws x m h h' in
      let (times, users) = ping_all_lem now net ws idle (pinged now net x m) k.times k.users in
      (times ∙ ground (arith, k.time_at), users ∙ ground (arith, k.user_at))

  contains-keys :
      {V : Type 0} (ws : Socket) (d : Dict Socket V)
      → contains ws (keys d) ≡ is_some (lookup socket_dec ws d)
  unfolding lookup
  contains-keys ws [] = refl
  contains-keys ws ((other, v) ∷ d) = ground (arith, contains-keys ws d)

  active-reap_stale :
      (now : ℕ) (net : Net T) (ws : Socket) (m : ConnectionManager T)
      → m.active_connections ≡ keys m.connection_users
      → contains ws (reap_stale T now net m).active_connections
        ≡ is_some (lookup socket_dec ws (reap_stale T now net m).connection_users)
  unfolding reap_stale
  active-reap_stale now net ws m h =
      let left = ping_all-Shrinks T now net (idle_at T now m.last_seen) m h in
      ap (contains ws) left.same ∙ contains-keys ws _

  -- After a reap, for every socket: one that was heard of within the last 45 seconds, or never,
  -- keeps its record and its place among the connections; for one that was not, the ping decides:
  -- it counts as heard of now and stays connected if the ping goes out, and leaves the connections,
  -- their users and their times if it does not. Before the reap the two records of the connections
  -- agree, and no socket has two times.
  pub reap_stale_lem :
      (now : ℕ) (net : Net T) (ws : Socket) (m : ConnectionManager T)
      → HasDistinct socket_dec m.last_seen
      → Agree T m
      → let m' = reap_stale T now net m in
        let last = lookup socket_dec ws m.last_seen in
        (lookup socket_dec ws m'.last_seen
          ≡ (if is_stale now last then if net ws then some now else none else last))
        × (lookup socket_dec ws m'.connection_users ≡ (
            if is_stale now last && not (net ws)
            then none
            else lookup socket_dec ws m.connection_users))
        × (contains ws m'.active_connections ≡ (
            if is_stale now last && not (net ws) then false else contains ws m.active_connections))
  unfolding reap_stale
  reap_stale_lem now net ws m h agree =
      let (times, users) = ping_all_lem now net ws (idle_at T now m.last_seen) m h agree.distinct in
      let stale = contains-idle_at now ws m.last_seen h in
      let kept : lookup socket_dec ws (reap_stale T now net m).connection_users ≡ (
          if is_stale now (lookup socket_dec ws m.last_seen) && not (net ws)
          then none
          else lookup socket_dec ws m.connection_users) =
        users ∙ ground (arith, stale) in
      let before : contains ws m.active_connections
          ≡ is_some (lookup socket_dec ws m.connection_users) =
        ap (contains ws) agree.same ∙ contains-keys ws m.connection_users in
      (
        times ∙ ground (arith, stale),
        kept,
        active-reap_stale now net ws m agree.same ∙ ap is_some kept ∙ ground (arith, before),
      )
