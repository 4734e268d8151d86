-- ===== src/Websocket/Delivery/ToUser.antt =====
-- Who gets a broadcast to one user, and whom it disconnects.
use metroflow_ai_backend.Common.{
  ◌≡◌, Bool, true, false, ◌||◌, not, Option, none, some, List, [], ◌∷◌, map, arith, select, All-map,
  Bool-cases, inl, inr, All,
}
use metroflow_ai_backend.Common.Dict.{Dict, lookup, HasDistinct}
use metroflow_ai_backend.Websocket.Events.{Event, Data, Domain}
use metroflow_ai_backend.Websocket.Manager.{
  ConnectionManager, Net, already_seen, mark_seen, is_user,
}
use metroflow_ai_backend.Websocket.Broadcast.{broadcast_to_user, or_fresh, targets_of}
use metroflow_ai_backend.Websocket.Delivery.{Agree, paired-firsts, send_all_keeps}

module _ (T : Domain) where
  open T use {Socket, User, Uuid, Value, socket_dec, id_dec}

  is_user_lem :
      (user : User) (owner : Option User) → is_user T user owner ≡ true → owner ≡ some user
  is_user_lem user none h = cc (h)
  is_user_lem user (some other) h = ground arith

  under_head :
      (ws : Socket) (owner : Option User) (user : User) (d : Dict Socket (Option User))
      → lookup socket_dec ws d ≡ none
      → (other : Socket) → lookup socket_dec other d ≡ some (some user)
      → lookup socket_dec other ((ws, owner) ∷ d) ≡ some (some user)
  unfolding lookup
  under_head ws owner user d absent other h = ground arith

  owned :
      (user : User) (d : Dict Socket (Option User))
      → HasDistinct socket_dec d
      → All (λ ws. lookup socket_dec ws d ≡ some (some user)) (targets_of T user d)
  unfolding lookup
  owned user [] h = tt
  owned user ((ws, owner) ∷ d) h =
      let rest =
        All-map (under_head ws owner user d h.0) (targets_of T user d) (owned user d h.1) in
      elim (Bool-cases (is_user T user owner)) [
        | inl own ↦ rw own (ground (arith, is_user_lem user owner own), rest)
        | inr foreign ↦ rw foreign rest
      ]

  All-paired :
      {B : Type 0} (P : Socket → Type 0) (b : B) (xs : List Socket)
      → All P xs
      → All (λ (d : Socket × B). P d.0) (map (λ x. (x, b)) xs)
  All-paired P b [] h = tt
  All-paired P b (x ∷ xs) h = (h.0, All-paired P b xs h.1)

  -- A broadcast to a user with a new id is handed to the connections of that user only, and
  -- afterwards exactly the other connections, and those of the user's whose send succeeded, are
  -- still connected.
  pub broadcast_to_user_reaches :
      (net : Net T) (fresh : Uuid) (user : User) (event : Event) (body : Data Value)
      (from_relay : Bool) (event_id : Option Uuid) (m : ConnectionManager T)
      → Agree T m
      → already_seen T (some (or_fresh T event_id fresh)) m ≡ false
      → let sent = broadcast_to_user T net fresh user event body from_relay event_id m in
        (map (λ d. d.0) sent.deliveries ≡ targets_of T user m.connection_users)
        × All (λ d. lookup socket_dec d.0 m.connection_users ≡ some (some user)) sent.deliveries
        × (sent.manager.connection_users
            ≡ select (λ e. not (is_user T user e.1) || net e.0) m.connection_users)
  unfolding broadcast_to_user mark_seen
  broadcast_to_user_reaches net fresh user event body from_relay event_id m h new =
      let marked = mark_seen T (some (or_fresh T event_id fresh)) m in
      let targets = targets_of T user m.connection_users in
      rw (new, broadcast_to_user)
        (
          paired-firsts T (event, body) targets,
          All-paired (λ ws. lookup socket_dec ws m.connection_users ≡ some (some user))
              (event, body) targets (owned user m.connection_users h.distinct),
          send_all_keeps T net event (λ e. is_user T user e.1) marked h.distinct,
        )
