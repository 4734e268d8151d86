-- ===== src/Websocket/Limits/Steps.antt =====
-- The steps of an instance keep its records valid.
use metroflow_ai_backend.Common.{
  ℕ, ◌≡◌, ◌∙◌, ap, sym, remove, refl, some, List, [], ◌∷◌, if◌then◌else◌, arith, Option-cases,
  Bool-cases, inl, inr,
}
use metroflow_ai_backend.Common.Dict.{keys, insert}
use metroflow_ai_backend.Common.Dict.Order.{erase_all, keys-erase}
use metroflow_ai_backend.Websocket.Events.{Reason, stale_reaped, Domain}
use metroflow_ai_backend.Websocket.Manager.{
  ConnectionManager, Limits, Net, already_seen, mark_seen, remember_latest_state, disconnect,
  record_activity,
}
use metroflow_ai_backend.Websocket.Broadcast.{
  broadcast, broadcast_to_user, failed, targets_of, ping_all, reap_stale, idle_at,
}
use metroflow_ai_backend.Websocket.Dedupe.Once.{Incoming, id_of, deliver, deliver-Seen}
use metroflow_ai_backend.Websocket.Delivery.{
  Agree, users-send_all, active-send_all, users-remember, Agree-noted,
}
use metroflow_ai_backend.Websocket.Limits.{
  IsValid, Step, connects, disconnects, acts, delivers, reaps, Reach, here, next, shrunk-IsValid,
  connect-IsValid,
}

module _ (T : Domain) where
  open T use {Socket, User, Uuid, Value, socket_dec}

  -- The connections of `m'` are those of `m` but for some that have gone.
  pub record Shrinks (m m' : ConnectionManager T) : Type 0 where
    pub gone : List Socket
    pub users : m'.connection_users ≡ erase_all socket_dec gone m.connection_users
    pub same : m'.active_connections ≡ keys m'.connection_users

  Shrinks-same : (m : ConnectionManager T) → Agree T m → Shrinks m m
  Shrinks-same m h = record { gone = []; users = refl; same = h.same }

  broadcast-Shrinks :
      (i : Incoming T) (m : ConnectionManager T)
      → Agree T m
      → Shrinks m (broadcast T i.net i.fresh i.event i.body i.from_relay i.event_id m).manager
  unfolding broadcast mark_seen
  broadcast-Shrinks i m h = elim (Bool-cases (already_seen T (some (id_of T i)) m)) [
    | inl old ↦ rw (old, broadcast) (Shrinks-same m h)
    | inr new ↦
        let noted = remember_latest_state T i.event i.body (mark_seen T (some (id_of T i)) m) in
        let agree = Agree-noted T (id_of T i) i.event i.body m h in
        let (users, _) = users-remember T i.event i.body (mark_seen T (some (id_of T i)) m) in
        let left = failed T i.net noted.active_connections in
        rw (new, broadcast)
          (record {
            gone = left;
            users =
                users-send_all T i.net i.event noted.active_connections noted
                ∙ ap (erase_all socket_dec left) users;
            same = active-send_all T i.net i.event noted.active_connections noted agree.same;
          })
  ]

  broadcast_to_user-Shrinks :
      (i : Incoming T) (user : User) (m : ConnectionManager T)
      → Agree T m
      → Shrinks m
          (broadcast_to_user T i.net i.fresh user i.event i.body i.from_relay i.event_id m).manager
  unfolding broadcast_to_user mark_seen
  broadcast_to_user-Shrinks i user m h = elim (Bool-cases (already_seen T (some (id_of T i)) m)) [
    | inl old ↦ rw (old, broadcast_to_user) (Shrinks-same m h)
    | inr new ↦
        let noted = mark_seen T (some (id_of T i)) m in
        let targets = targets_of T user m.connection_users in
        rw (new, broadcast_to_user)
          (record {
            gone = failed T i.net targets;
            users = users-send_all T i.net i.event targets noted;
            same = active-send_all T i.net i.event targets noted h.same;
          })
  ]

  deliver-Shrinks :
      (i : Incoming T) (m : ConnectionManager T) → Agree T m → Shrinks m (deliver T i m).manager
  unfolding deliver
  deliver-Shrinks i m h = elim (Option-cases i.target) [
    | inl all ↦ rw (all, deliver) (broadcast-Shrinks i m h)
    | inr (user, one) ↦ rw (one, deliver) (broadcast_to_user-Shrinks i user m h)
  ]

  disconnect-same :
      (reason : Reason) (ws : Socket) (m : ConnectionManager T)
      → m.active_connections ≡ keys m.connection_users
      → (disconnect T reason ws m).active_connections
        ≡ keys (disconnect T reason ws m).connection_users
  unfolding disconnect
  disconnect-same reason ws m h =
      ap (remove socket_dec ws) h ∙ sym (keys-erase socket_dec ws m.connection_users)

  users-disconnect :
      (reason : Reason) (ws : Socket) (m : ConnectionManager T)
      → (disconnect T reason ws m).connection_users
        ≡ erase_all socket_dec (ws ∷ []) m.connection_users
  unfolding disconnect
  users-disconnect reason ws m = refl

  seen-ping_all :
      (now : ℕ) (net : Net T) (idle : List Socket) (m : ConnectionManager T)
      → (ping_all T now net idle m).seen_event_ids ≡ m.seen_event_ids
  unfolding ping_all disconnect
  seen-ping_all now net [] m = refl
  seen-ping_all now net (ws ∷ idle) m =
      let pinged =
        if net ws
        then record m { last_seen = insert socket_dec ws now m.last_seen }
        else disconnect T stale_reaped ws m in
      seen-ping_all now net idle pinged ∙ ground arith

  pub ping_all-Shrinks :
      (now : ℕ) (net : Net T) (idle : List Socket) (m : ConnectionManager T)
      → m.active_connections ≡ keys m.connection_users
      → Shrinks m (ping_all T now net idle m)
  unfolding ping_all disconnect
  ping_all-Shrinks now net [] m h = record { gone = []; users = refl; same = h }
  ping_all-Shrinks now net (ws ∷ idle) m h = elim (Bool-cases (net ws)) [
    | inl sent ↦
        let beaten = record m { last_seen = insert socket_dec ws now m.last_seen } in
        let left = ping_all-Shrinks now net idle beaten h in
        rw sent (record { gone = left.gone; users = left.users; same = left.same })
    | inr dead ↦
        let dropped = disconnect T stale_reaped ws m in
        let left = ping_all-Shrinks now net idle dropped (disconnect-same stale_reaped ws m h) in
        rw dead (record { gone = ws ∷ left.gone; users = left.users; same = left.same })
  ]

  Step-IsValid :
      (limits : Limits) (m m' : ConnectionManager T)
      → Step T limits m m'
      → IsValid T limits m
      → IsValid T limits m'
  unfolding disconnect record_activity reap_stale
  Step-IsValid limits m m' (connects now net ws user new e) h =
      rw e (connect-IsValid T limits now net ws user m new h)
  Step-IsValid limits m m' (disconnects reason ws e) h = rw e (
      shrunk-IsValid T limits (ws ∷ []) m (disconnect T reason ws m) h
        (disconnect-same reason ws m h.agree.same) (users-disconnect reason ws m) h.seen)
  Step-IsValid limits m m' (acts now ws e) h =
      rw e (shrunk-IsValid T limits [] m (record_activity T now ws m) h h.agree.same refl h.seen)
  Step-IsValid limits m m' (delivers i e) h =
      let left = deliver-Shrinks i m h.agree in
      rw e (
        shrunk-IsValid T limits left.gone m (deliver T i m).manager h left.same left.users
          (deliver-Seen T i m h.seen))
  Step-IsValid limits m m' (reaps now net e) h =
      let idle = idle_at T now m.last_seen in
      let left = ping_all-Shrinks now net idle m h.agree.same in
      rw e (
        shrunk-IsValid T limits left.gone m (reap_stale T now net m) h left.same left.users
          (rw (seen-ping_all now net idle m) h.seen))

  -- After any history of connections, disconnections, activity, broadcasts, relayed events and
  -- reaps, each finished before the next begins, with any failed sends, the two records of the connections agree, no socket stands twice,
  -- neither the capacity nor the limit of any user is exceeded, and at most 4096 distinct event ids
  -- are kept.
  pub Reach-IsValid :
      {limits : Limits} {m m' : ConnectionManager T}
      → IsValid T limits m
      → Reach T limits m m'
      → IsValid T limits m'
  Reach-IsValid h here = h
  Reach-IsValid {limits} h (next {m'} {m''} r s) = Step-IsValid limits m' m'' s (Reach-IsValid h r)
