-- ===== src/Websocket/Limits.antt =====
-- What every history of an instance keeps: the capacity, the limit of each user, and the agreement
-- of its records.
pub mod Overlap
pub mod Steps
use metroflow_ai_backend.Common.{
  ℕ, ◌+◌, ◌≤◌, ◌<◌, ◌≡◌, ◌∙◌, ap, sym, refl, Bool, true, false, not, Option, none, some, List, [],
  ◌∷◌, ◌++◌, if◌then◌else◌, length, length-append, arith, ltb, leb, select, Option-cases,
  Bool-cases, inl, inr,
}
use metroflow_ai_backend.Common.Dict.{
  Dict, keys, lookup, erase, insert, HasDistinct, erase-HasDistinct, insert-HasDistinct,
  length-erase-le,
}
use metroflow_ai_backend.Common.Dict.Order.{
  erase_all, insert_new, keys-append_one, append_one-HasDistinct,
}
use metroflow_ai_backend.Websocket.Events.{Event, Reason, send_failed, stale_reaped, Data, Domain}
use metroflow_ai_backend.Websocket.Manager.{
  ConnectionManager, Limits, Net, already_seen, mark_seen, remember_latest_state, disconnect,
  is_user, per_user, has_room, admit, connect, record_activity,
}
use metroflow_ai_backend.Websocket.Broadcast.{
  broadcast, broadcast_to_user, send_all, disconnect_all, or_fresh, failed, targets_of, ping_all,
  reap_stale, idle_at,
}
use metroflow_ai_backend.Websocket.Dedupe.{Seen}
use metroflow_ai_backend.Websocket.Dedupe.Once.{Incoming, deliver, deliver-Seen}
use metroflow_ai_backend.Websocket.Delivery.{Agree, users-send_all, active-send_all, Agree-noted}

module _ (T : Domain) where
  open T use {Socket, User, Uuid, Value, socket_dec, id_dec}

  pub record IsValid (limits : Limits) (m : ConnectionManager T) : Type 0 where
    pub agree : Agree T m
    pub seen : Seen T m.seen_event_ids
    pub capacity : length m.active_connections ≤ limits.max_connections
    pub each_user :
        (user : User) → per_user T user m.connection_users ≤ limits.max_connections_per_user

  -- The steps of an instance. Sockets are new when they connect.
  pub data Step (limits : Limits) (m m' : ConnectionManager T) : Type 0 where
    connects :
        (now : ℕ) (net : Net T) (ws : Socket) (user : Option User)
        → lookup socket_dec ws m.connection_users ≡ none
        → m' ≡ (connect T limits now net ws user m).2
        → Step limits m m'
    disconnects : (reason : Reason) (ws : Socket) → m' ≡ disconnect T reason ws m → Step limits m m'
    acts : (now : ℕ) (ws : Socket) → m' ≡ record_activity T now ws m → Step limits m m'
    delivers : (i : Incoming T) → m' ≡ (deliver T i m).manager → Step limits m m'
    reaps : (now : ℕ) (net : Net T) → m' ≡ reap_stale T now net m → Step limits m m'

  pub data Reach (limits : Limits) (m : ConnectionManager T) : ConnectionManager T → Type 0 where
    here : Reach limits m m
    next :
        {m' m'' : ConnectionManager T} → Reach limits m m' → Step limits m' m'' → Reach limits m m''

  per_user-erase-le :
      (user : User) (ws : Socket) (d : Dict Socket (Option User))
      → per_user T user (erase socket_dec ws d) ≤ per_user T user d
  unfolding erase
  per_user-erase-le user ws [] = omega arith
  per_user-erase-le user ws (e ∷ d) = ground (arith, per_user-erase-le user ws d)

  per_user-append_one :
      (user : User) (ws : Socket) (owner : Option User) (d : Dict Socket (Option User))
      → per_user T user (d ++ (ws, owner) ∷ [])
        ≡ per_user T user d + (if is_user T user owner then 1 else 0)
  per_user-append_one user ws owner [] = ground arith
  per_user-append_one user ws owner (e ∷ d) = ground (arith, per_user-append_one user ws owner d)

  length-keys : (d : Dict Socket (Option User)) → length (keys d) ≡ length d
  length-keys [] = refl
  length-keys (e ∷ d) = ground (arith, length-keys d)

  -- The users of the connections once some connections have gone.
  erase_all-keeps :
      (ks : List Socket) (d : Dict Socket (Option User))
      → HasDistinct socket_dec d
      → HasDistinct socket_dec (erase_all socket_dec ks d)
        × (length (erase_all socket_dec ks d) ≤ length d)
        × ((user : User) → per_user T user (erase_all socket_dec ks d) ≤ per_user T user d)
  erase_all-keeps [] d h = (h, omega arith, λ user. omega arith)
  erase_all-keeps (k ∷ ks) d h =
      let (distinct, shorter, fewer) =
        erase_all-keeps ks (erase socket_dec k d) (erase-HasDistinct socket_dec k d h) in
      (
        distinct,
        omega (arith, shorter, length-erase-le socket_dec k d),
        λ user. omega (arith, fewer user, per_user-erase-le user k d),
      )

  held :
      {limits : Limits} (m : ConnectionManager T)
      → IsValid limits m
      → length m.connection_users ≤ limits.max_connections
  held m h = rw⁻¹ (length-keys m.connection_users) (rw h.agree.same at h.capacity)

  pub shrunk-IsValid :
      (limits : Limits) (ks : List Socket) (m m' : ConnectionManager T)
      → IsValid limits m
      → m'.active_connections ≡ keys m'.connection_users
      → m'.connection_users ≡ erase_all socket_dec ks m.connection_users
      → Seen T m'.seen_event_ids
      → IsValid limits m'
  shrunk-IsValid limits ks m m' h same users seen =
      let d = m.connection_users in
      let (distinct, shorter, fewer) = erase_all-keeps ks d h.agree.distinct in
      record {
        agree = record { same = same; distinct = rw users distinct };
        seen = seen;
        capacity =
            rw (same, length-keys m'.connection_users, users) (omega (arith, shorter, held m h));
        each_user = λ user. rw users (omega (arith, fewer user, h.each_user user));
      }

  admit-each_user :
      (limits : Limits) (user : Option User) (m : ConnectionManager T) (ws : Socket) (other : User)
      → has_room T limits user m ≡ true
      → per_user T other m.connection_users ≤ limits.max_connections_per_user
      → per_user T other (m.connection_users ++ (ws, user) ∷ []) ≤ limits.max_connections_per_user
  unfolding has_room
  admit-each_user limits none m ws other room h =
      ground (arith, per_user-append_one other ws none m.connection_users)
  admit-each_user limits (some u) m ws other room h =
      ground (arith, per_user-append_one other ws (some u) m.connection_users)

  pub has_room-lt :
      (limits : Limits) (user : Option User) (m : ConnectionManager T)
      → has_room T limits user m ≡ true
      → length m.active_connections < limits.max_connections
  unfolding has_room
  has_room-lt limits user m room = ground arith

  admit-IsValid :
      (limits : Limits) (now : ℕ) (ws : Socket) (user : Option User) (m : ConnectionManager T)
      → lookup socket_dec ws m.connection_users ≡ none
      → has_room T limits user m ≡ true
      → IsValid limits m
      → IsValid limits (admit T now ws user m)
  unfolding admit
  admit-IsValid limits now ws user m new room h =
      let d = m.connection_users in
      let grown = insert_new socket_dec ws user d new in
      record {
        agree = record {
          same =
              ap (λ xs. xs ++ ws ∷ []) h.agree.same
              ∙ sym (keys-append_one socket_dec ws user d)
              ∙ ap keys (sym grown);
          distinct = insert-HasDistinct socket_dec ws user d h.agree.distinct;
        };
        seen = h.seen;
        capacity =
            omega
              (arith, length-append m.active_connections (ws ∷ []), has_room-lt limits user m room);
        each_user =
            λ other. rw grown (admit-each_user limits user m ws other room (h.each_user other));
      }

  pub connect-IsValid :
      (limits : Limits) (now : ℕ) (net : Net T) (ws : Socket) (user : Option User)
      (m : ConnectionManager T)
      → lookup socket_dec ws m.connection_users ≡ none
      → IsValid limits m
      → IsValid limits (connect T limits now net ws user m).2
  unfolding connect
  connect-IsValid limits now net ws user m new h = elim (Bool-cases (has_room T limits user m)) [
    | inl room ↦ rw (room, connect) (admit-IsValid limits now ws user m new room h)
    | inr full ↦
        rw (full, connect)
          (record {
            agree = record { same = h.agree.same; distinct = h.agree.distinct };
            seen = h.seen;
            capacity = h.capacity;
            each_user = h.each_user;
          })
  ]
