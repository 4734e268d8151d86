-- ===== src/Websocket/Delivery.antt =====
-- Who gets a broadcast, and whom it disconnects.
pub mod ToUser
use metroflow_ai_backend.Common.{
  ◌≡◌, ◌∙◌, ap, sym, refl, Bool, true, false, ◌&&◌, ◌||◌, not, Option, none, some, List, [], ◌∷◌,
  map, length, arith, ltb, select, All-map, select-select, select_all, select_same, Bool-cases, inl,
  inr, All,
}
use metroflow_ai_backend.Common.Dict.{Dict, keys, lookup, HasDistinct}
use metroflow_ai_backend.Common.Dict.Order.{keys-erase, erase_all, erase_all-select, select-keys}
use metroflow_ai_backend.Websocket.Events.{Event, Reason, send_failed, Data, Domain}
use metroflow_ai_backend.Websocket.Manager.{
  ConnectionManager, Net, already_seen, mark_seen, remember_latest_state, disconnect, is_user,
}
use metroflow_ai_backend.Websocket.Broadcast.{
  broadcast, broadcast_to_user, send_all, disconnect_all, or_fresh, failed, count_failures,
  targets_of,
}

module _ (T : Domain) where
  open T use {Socket, User, Uuid, Value, socket_dec, id_dec}

  -- The two records of the connections agree, and no socket stands twice.
  pub record Agree (m : ConnectionManager T) : Type 0 where
    pub same : m.active_connections ≡ keys m.connection_users
    pub distinct : HasDistinct socket_dec m.connection_users

  pub users-disconnect_all :
      (reason : Reason) (stale : List Socket) (m : ConnectionManager T)
      → (disconnect_all T reason stale m).connection_users
        ≡ erase_all socket_dec stale m.connection_users
  unfolding disconnect_all disconnect
  users-disconnect_all reason [] m = refl
  users-disconnect_all reason (ws ∷ stale) m =
      users-disconnect_all reason stale (disconnect T reason ws m)

  pub active-disconnect_all :
      (reason : Reason) (stale : List Socket) (m : ConnectionManager T)
      → m.active_connections ≡ keys m.connection_users
      → (disconnect_all T reason stale m).active_connections
        ≡ keys (disconnect_all T reason stale m).connection_users
  unfolding disconnect_all disconnect
  active-disconnect_all reason [] m h = h
  active-disconnect_all reason (ws ∷ stale) m h =
      active-disconnect_all reason stale (disconnect T reason ws m)
        (rw (h) (ground (arith, keys-erase socket_dec ws m.connection_users)))

  no_items : {A : Type 0} (xs : List A) → ltb 0 (length xs) ≡ false → xs ≡ []
  no_items [] h = refl
  no_items (x ∷ xs) h = ground arith

  pub users-send_all :
      (net : Net T) (event : Event) (targets : List Socket) (m : ConnectionManager T)
      → (send_all T net event targets m).connection_users
        ≡ erase_all socket_dec (failed T net targets) m.connection_users
  unfolding send_all count_failures
  users-send_all net event targets m =
      let stale = failed T net targets in
      ground (
        arith,
        users-disconnect_all send_failed stale (count_failures T event (length stale) m),
        no_items stale,
      )

  pub active-send_all :
      (net : Net T) (event : Event) (targets : List Socket) (m : ConnectionManager T)
      → m.active_connections ≡ keys m.connection_users
      → (send_all T net event targets m).active_connections
        ≡ keys (send_all T net event targets m).connection_users
  unfolding send_all count_failures
  active-send_all net event targets m h =
      let stale = failed T net targets in
      ground (
        arith,
        h,
        active-disconnect_all send_failed stale (count_failures T event (length stale) m),
      )

  pub users-remember :
      (event : Event) (body : Data Value) (m : ConnectionManager T)
      → ((remember_latest_state T event body m).connection_users ≡ m.connection_users)
        × ((remember_latest_state T event body m).active_connections ≡ m.active_connections)
  unfolding remember_latest_state
  users-remember event body m = ground arith

  -- Of the connections that a test picks as targets, those whose send failed go.
  pub send_all_keeps :
      (net : Net T) (event : Event) (q : Socket × Option User → Bool) (m : ConnectionManager T)
      → HasDistinct socket_dec m.connection_users
      → (send_all T net event (keys (select q m.connection_users)) m).connection_users
        ≡ select (λ e. not (q e) || net e.0) m.connection_users
  send_all_keeps net event q m h =
      let d = m.connection_users in
      let keeps = λ (e : Socket × Option User). not (q e) || net e.0 in
      users-send_all net event (keys (select q d)) m
      ∙ ap (λ ks. erase_all socket_dec ks d)
          (select-keys (λ ws. not (net ws)) (select q d)
            ∙ ap keys (
                select-select (λ e. not (net e.0)) q d
                ∙ select_same (λ e. q e && not (net e.0)) (λ e. not (keeps e)) d
                    (λ e. ground arith)))
      ∙ erase_all-select socket_dec keeps d h

  send_all_everyone :
      (net : Net T) (event : Event) (targets : List Socket) (m : ConnectionManager T)
      → targets ≡ keys m.connection_users
      → HasDistinct socket_dec m.connection_users
      → (send_all T net event targets m).connection_users ≡ select (λ e. net e.0) m.connection_users
  send_all_everyone net event targets m e h =
      let d = m.connection_users in
      ap (λ ts. (send_all T net event ts m).connection_users) (e ∙ ap keys (sym (select_all d)))
      ∙ send_all_keeps net event (λ _. true) m h

  pub Agree-noted :
      (id : Uuid) (event : Event) (body : Data Value) (m : ConnectionManager T)
      → Agree m
      → Agree (remember_latest_state T event body (mark_seen T (some id) m))
  unfolding mark_seen
  Agree-noted id event body m h =
      let (users, active) = users-remember event body (mark_seen T (some id) m) in
      record { same = active ∙ h.same ∙ ap keys (sym users); distinct = rw users h.distinct }

  pub paired-firsts :
      {A B : Type 0} (b : B) (xs : List A) → map (λ (d : A × B). d.0) (map (λ x. (x, b)) xs) ≡ xs
  paired-firsts b [] = refl
  paired-firsts b (x ∷ xs) = ap (λ ys. x ∷ ys) (paired-firsts b xs)

  -- A broadcast with a new id is handed to every connection exactly once, in their order, and
  -- afterwards exactly those whose send succeeded are still connected.
  pub broadcast_reaches :
      (net : Net T) (fresh : Uuid) (event : Event) (body : Data Value) (from_relay : Bool)
      (event_id : Option Uuid) (m : ConnectionManager T)
      → Agree m
      → already_seen T (some (or_fresh T event_id fresh)) m ≡ false
      → let sent = broadcast T net fresh event body from_relay event_id m in
        (map (λ d. d.0) sent.deliveries ≡ m.active_connections)
        × (sent.manager.connection_users ≡ select (λ e. net e.0) m.connection_users)
        × (sent.manager.active_connections ≡ select net m.active_connections)
  unfolding broadcast mark_seen
  broadcast_reaches net fresh event body from_relay event_id m h new =
      let id = or_fresh T event_id fresh in
      let marked = mark_seen T (some id) m in
      let noted = remember_latest_state T event body marked in
      let (users, active) = users-remember event body marked in
      let agree = Agree-noted id event body m h in
      let left =
        send_all_everyone net event noted.active_connections noted agree.same agree.distinct in
      let kept = left ∙ ap (select (λ e. net e.0)) users in
      rw (new, broadcast)
        (
          paired-firsts (event, body) noted.active_connections ∙ active,
          kept,
          active-send_all net event noted.active_connections noted agree.same
              ∙ ap keys kept
              ∙ sym (select-keys net m.connection_users)
              ∙ ap (select net) (sym h.same),
        )
