-- ===== src/Websocket/Relay.antt =====
-- Events between two instances: what one publishes and the other does with it.
use metroflow_ai_backend.Common.{
  if_pos, if_neg, ap, ◌∙◌, ◌≡◌, ◌≢◌, refl, true, none, some, [], arith, Option-cases, inl, inr,
}
use metroflow_ai_backend.Websocket.Events.{Domain}
use metroflow_ai_backend.Websocket.Manager.{ConnectionManager, Net}
use metroflow_ai_backend.Websocket.Broadcast.{
  Relay, Sent, broadcast, broadcast_to_user, relay_message,
}
use metroflow_ai_backend.Websocket.Dedupe.Once.{Incoming, deliver, id_of}

module _ (T : Domain) where
  open T use {Socket, User, Uuid, Value, id_dec}

  -- The event of an instance as the relay brings it to another.
  abbrev pub relayed : Net T → Uuid → Uuid → Incoming T → Incoming T
  relayed net fresh id i = record {
    net = net;
    fresh = fresh;
    target = i.target;
    event = i.event;
    body = i.body;
    from_relay = true;
    event_id = some id;
  }

  abbrev envelope : Incoming T → ConnectionManager T → Relay T
  envelope i m = record {
    origin = m.instance_id;
    event_id = some (id_of T i);
    event = i.event;
    body = i.body;
    target_user_id = i.target;
  }

  published_lem :
      (i : Incoming T) (m : ConnectionManager T) (message : Relay T)
      → (deliver T i m).published ≡ some message
      → message ≡ envelope i m
  unfolding deliver broadcast broadcast_to_user
  published_lem i m message h = elim (Option-cases i.target) [
    | inl all ↦ ground (arith, all, h)
    | inr (user, one) ↦ ground (arith, one, h)
  ]

  quiet :
      (i : Incoming T) (m : ConnectionManager T)
      → i.from_relay ≡ true
      → (deliver T i m).published ≡ none
  unfolding deliver broadcast broadcast_to_user
  quiet i m h = ground (arith, h)

  handled :
      (i : Incoming T) (net : Net T) (fresh : Uuid) (m other : ConnectionManager T)
      → other.loop ≡ true
      → m.instance_id ≢ other.instance_id
      → relay_message T net fresh (envelope i m) other
        ≡ deliver T (relayed net fresh (id_of T i) i) other
  unfolding relay_message deliver
  handled i net fresh m other bound ne = simp (
    if_neg {C = Sent T} (id_dec m.instance_id other.instance_id) ne,
    bound,
    relay_message,
    deliver,
  )

  ignored :
      (i : Incoming T) (net : Net T) (fresh : Uuid) (m : ConnectionManager T)
      → relay_message T net fresh (envelope i m) m
        ≡ record { deliveries = []; published = none; manager = m }
  unfolding relay_message
  ignored i net fresh m = rw (if_pos (id_dec m.instance_id m.instance_id) refl) refl

  -- What an instance publishes of an event, any other instance with a loop handles as that event
  -- under the same id, for the same user or for everyone, and without publishing it again; the
  -- instance itself ignores it.
  pub relay_message-deliver :
      (i : Incoming T) (net : Net T) (fresh : Uuid) (m other : ConnectionManager T)
      (message : Relay T)
      → (deliver T i m).published ≡ some message
      → other.loop ≡ true
      → m.instance_id ≢ other.instance_id
      → (relay_message T net fresh message other
          ≡ deliver T (relayed net fresh (id_of T i) i) other)
        × ((relay_message T net fresh message other).published ≡ none)
        × ((relay_message T net fresh message m).deliveries ≡ [])
        × ((relay_message T net fresh message m).manager ≡ m)
  relay_message-deliver i net fresh m other message sent bound ne =
      let known = published_lem i m message sent in
      let here = handled i net fresh m other bound ne in
      let own = ignored i net fresh m in
      rw known (
        here,
        ap (λ s. s.published) here ∙ quiet (relayed net fresh (id_of T i) i) other refl,
        ap (λ s. s.deliveries) own,
        ap (λ s. s.manager) own,
      )
