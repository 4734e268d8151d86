-- ===== src/Websocket/Dedupe/Once.antt =====
-- Events that reach an instance, from its own process or over the relay, in any order.
use metroflow_ai_backend.Common.{
  ℕ, suc, ◌+◌, ◌<◌, ◌≡◌, refl, Bool, true, Option, none, some, List, [], ◌∷◌, if◌then◌else◌, length,
  arith, is_some, Option-cases, inl, inr,
}
use metroflow_ai_backend.Common.Dict.{lookup}
use metroflow_ai_backend.Websocket.Events.{Event, Reason, send_failed, Data, Domain}
use metroflow_ai_backend.Websocket.Manager.{
  ConnectionManager, Net, already_seen, mark_seen, note_id, dedupe_max_entries,
  remember_latest_state, disconnect,
}
use metroflow_ai_backend.Websocket.Broadcast.{
  Sent, broadcast, broadcast_to_user, send_all, disconnect_all, or_fresh, failed, count_failures,
  targets_of,
}
use metroflow_ai_backend.Websocket.Dedupe.{
  Seen, note_id-Seen, note_id_self, note_id_other, recent, recent-le, recent-lookup,
}

module _ (T : Domain) where
  open T use {Socket, User, Uuid, Value, id_dec}

  -- A call of `broadcast`, or of `broadcast_to_user` for a target.
  pub record Incoming : Type 0 where
    pub net : Net T
    pub fresh : Uuid
    pub target : Option User
    pub event : Event
    pub body : Data Value
    pub from_relay : Bool
    pub event_id : Option Uuid

  abbrev pub id_of : Incoming → Uuid
  id_of i = or_fresh T i.event_id i.fresh

  unfoldable pub deliver : Incoming → ConnectionManager T → Sent T
  deliver i m = elim i.target [
    | none ↦ broadcast T i.net i.fresh i.event i.body i.from_relay i.event_id m
    | some user ↦ broadcast_to_user T i.net i.fresh user i.event i.body i.from_relay i.event_id m
  ]

  unfoldable pub deliver_all : List Incoming → ConnectionManager T → ConnectionManager T
  unfolding deliver
  deliver_all [] m = m
  deliver_all (i ∷ is) m = deliver_all is (deliver i m).manager

  seen-disconnect_all :
      (reason : Reason) (stale : List Socket) (m : ConnectionManager T)
      → (disconnect_all T reason stale m).seen_event_ids ≡ m.seen_event_ids
  unfolding disconnect_all disconnect
  seen-disconnect_all reason [] m = refl
  seen-disconnect_all reason (ws ∷ stale) m =
      seen-disconnect_all reason stale (disconnect T reason ws m)

  seen-send_all :
      (net : Net T) (event : Event) (targets : List Socket) (m : ConnectionManager T)
      → (send_all T net event targets m).seen_event_ids ≡ m.seen_event_ids
  unfolding send_all count_failures
  seen-send_all net event targets m = ground (
    arith,
    seen-disconnect_all send_failed (failed T net targets)
        (count_failures T event (length (failed T net targets)) m),
  )

  seen-remember :
      (event : Event) (body : Data Value) (m : ConnectionManager T)
      → (remember_latest_state T event body m).seen_event_ids ≡ m.seen_event_ids
  unfolding remember_latest_state
  seen-remember event body m = ground arith

  seen-broadcast :
      (i : Incoming) (m : ConnectionManager T)
      → (broadcast T i.net i.fresh i.event i.body i.from_relay i.event_id m).manager.seen_event_ids
        ≡ (if is_some (lookup id_dec (id_of i) m.seen_event_ids)
            then m.seen_event_ids
            else note_id T (id_of i) m.seen_event_ids)
  unfolding broadcast already_seen mark_seen
  seen-broadcast i m =
      let marked = mark_seen T (some (id_of i)) m in
      let noted = remember_latest_state T i.event i.body marked in
      ground (
        arith,
        seen-send_all i.net i.event noted.active_connections noted,
        seen-remember i.event i.body marked,
      )

  seen-broadcast_to_user :
      (i : Incoming) (user : User) (m : ConnectionManager T)
      → (broadcast_to_user T i.net i.fresh user i.event i.body i.from_relay i.event_id
          m).manager.seen_event_ids
        ≡ (if is_some (lookup id_dec (id_of i) m.seen_event_ids)
            then m.seen_event_ids
            else note_id T (id_of i) m.seen_event_ids)
  unfolding broadcast_to_user already_seen mark_seen
  seen-broadcast_to_user i user m =
      let marked = mark_seen T (some (id_of i)) m in
      ground (arith, seen-send_all i.net i.event (targets_of T user marked.connection_users) marked)

  pub seen-deliver :
      (i : Incoming) (m : ConnectionManager T)
      → (deliver i m).manager.seen_event_ids ≡ (
          if is_some (lookup id_dec (id_of i) m.seen_event_ids)
          then m.seen_event_ids
          else note_id T (id_of i) m.seen_event_ids)
  unfolding deliver
  seen-deliver i m = elim (Option-cases i.target) [
    | inl all ↦ rw (all, deliver) (seen-broadcast i m)
    | inr (user, one) ↦ rw (one, deliver) (seen-broadcast_to_user i user m)
  ]

  deliver_seen :
      (i : Incoming) (m : ConnectionManager T)
      → is_some (lookup id_dec (id_of i) m.seen_event_ids) ≡ true
      → ((deliver i m).deliveries ≡ [])
        × ((deliver i m).manager ≡ m)
        × ((deliver i m).published ≡ none)
  unfolding deliver broadcast broadcast_to_user already_seen
  deliver_seen i m old = ground arith

  pub deliver-Seen :
      (i : Incoming) (m : ConnectionManager T)
      → Seen T m.seen_event_ids
      → Seen T (deliver i m).manager.seen_event_ids
  deliver-Seen i m h = ground (arith, seen-deliver i m, note_id-Seen T (id_of i) m.seen_event_ids h)

  deliver-recent :
      (i : Incoming) (id : Uuid) (n : ℕ) (m : ConnectionManager T)
      → Seen T m.seen_event_ids
      → suc n < dedupe_max_entries
      → recent id_dec id n m.seen_event_ids ≡ true
      → recent id_dec id (suc n) (deliver i m).manager.seen_event_ids ≡ true
  deliver-recent i id n m h lt r = ground (
    arith,
    seen-deliver i m,
    note_id_other T id (id_of i) n m.seen_event_ids h lt r,
    recent-le id_dec id n (suc n) m.seen_event_ids (omega arith) r,
  )

  deliver_all-recent :
      (is : List Incoming) (id : Uuid) (n : ℕ) (m : ConnectionManager T)
      → Seen T m.seen_event_ids
      → n + length is < dedupe_max_entries
      → recent id_dec id n m.seen_event_ids ≡ true
      → recent id_dec id (n + length is) (deliver_all is m).seen_event_ids ≡ true
  unfolding deliver_all
  deliver_all-recent [] id n m h lt r =
      recent-le id_dec id n (n + 0) m.seen_event_ids (omega arith) r
  deliver_all-recent (i ∷ is) id n m h lt r =
      recent-le id_dec id (suc n + length is) (n + suc (length is))
        (deliver_all is (deliver i m).manager).seen_event_ids (omega arith)
        (deliver_all-recent is id (suc n) (deliver i m).manager (deliver-Seen i m h) (omega arith)
          (deliver-recent i id n m h (omega arith) r))

  -- An event that is new to an instance, whether broadcast or meant for one user, is not repeated:
  -- after it and any further events, fewer than 4096, whatever their ids, targets and failed sends,
  -- an event with the same id delivers nothing, publishes nothing and changes nothing.
  pub deliver_once :
      (i j : Incoming) (is : List Incoming) (m : ConnectionManager T)
      → Seen T m.seen_event_ids
      → lookup id_dec (id_of i) m.seen_event_ids ≡ none
      → length is < dedupe_max_entries
      → id_of j ≡ id_of i
      → let m' = deliver_all is (deliver i m).manager in
        ((deliver j m').deliveries ≡ [])
        × ((deliver j m').manager ≡ m')
        × ((deliver j m').published ≡ none)
  deliver_once i j is m h new few same =
      let m' = deliver_all is (deliver i m).manager in
      let now : recent id_dec (id_of i) 0 (deliver i m).manager.seen_event_ids ≡ true =
        rw (seen-deliver i m, new) (note_id_self T (id_of i) m.seen_event_ids h) in
      let still =
        deliver_all-recent is (id_of i) 0 (deliver i m).manager (deliver-Seen i m h) (omega arith)
          now in
      deliver_seen j m'
        (rw same (recent-lookup id_dec (id_of i) (0 + length is) m'.seen_event_ids still))
