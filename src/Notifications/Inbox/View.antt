-- ===== src/Notifications/Inbox/View.antt =====
-- What a user is shown depends on the rows that are addressed to the user and on the user's own read
-- states.
use metroflow_ai_backend.Common.{
  ℕ, ◌≡◌, refl, sym, ap, ◌∙◌, Bool, true, Option, none, List, map, inl, inr, Option-cases,
  Bool-cases, select, page, order_by, at_least, or_default, length, ltb, select_within, Text, ℤ,
  arith,
}
use metroflow_ai_backend.Common.Dict.{Dict}
use metroflow_ai_backend.Geo.{cities_for_state}
use metroflow_ai_backend.Notifications.Inbox.{
  NotificationSource, Notification, NotificationReadState, Inbox, state_of, matches, is_addressed,
  is_in_bin, overlaid, binned_time_of, newest, notifications_limit, notifications_query,
  binned_query, list_notifications, list_binned_notifications, unread_count,
}
use metroflow_ai_backend.Notifications.Inbox.Actions.{is_mine}

module _ {User : Type 0} (dec : Discrete User) where
  -- The notifications that a user may see at all.
  abbrev pub addressed : User → Inbox User → Dict ℕ (Notification User)
  addressed user inbox = select (λ e. is_mine dec user e.1) inbox.notifications

  pub record SameView (user : User) (old new : Inbox User) : Type 0 where
    pub rows : addressed user new ≡ addressed user old
    pub states :
        (id : ℕ) → state_of dec user id new.read_states ≡ state_of dec user id old.read_states

  addressed-is_mine :
      (user : User) (row : Option (NotificationReadState User)) (n : Notification User)
      → is_addressed dec user row n ≡ true
      → is_mine dec user n ≡ true
  addressed-is_mine user row n h = elim (Option-cases n.user_id) [
    | inl e ↦ rw e refl
    | inr (owner, e) ↦ ground (arith, e, h)
  ]

  matches-is_mine :
      (now : ℕ) (user : User) (source : Option NotificationSource) (unread : Bool)
      (cities : Option (List Text)) (row : Option (NotificationReadState User))
      (n : Notification User)
      → matches dec now user source unread cities row n ≡ true
      → is_mine dec user n ≡ true
  matches-is_mine now user source unread cities row n h =
      elim (Bool-cases (is_addressed dec user row n)) [
        | inl b ↦ addressed-is_mine user row n b
        | inr b ↦ absurd (ground (arith, h, b))
      ]

  select-addressed :
      (p : ℕ × Notification User → Bool) (user : User) (inbox : Inbox User)
      → ((e : ℕ × Notification User) → p e ≡ true → is_mine dec user e.1 ≡ true)
      → select p (addressed user inbox) ≡ select p inbox.notifications
  select-addressed p user inbox h =
      select_within p (λ e. is_mine dec user e.1) inbox.notifications h

  query_same :
      (now : ℕ) (user : User) (source : Option NotificationSource) (unread : Bool)
      (state : Option Text) (old new : Inbox User)
      → SameView user old new
      → notifications_query dec now user source unread state new
        ≡ notifications_query dec now user source unread state old
  unfolding notifications_query
  query_same now user source unread state old new s =
      let cities = cities_for_state state in
      sym (
        select-addressed _ user new (λ e.
          matches-is_mine now user source unread cities (state_of dec user e.0 new.read_states)
            e.1))
      ∙ (λ i.
          select (λ e. matches dec now user source unread cities (s.states e.0 i) e.1) (s.rows i))
      ∙ select-addressed _ user old (λ e.
        matches-is_mine now user source unread cities (state_of dec user e.0 old.read_states) e.1)

  in_bin-is_mine :
      (retention now : ℕ) (user : User) (row : Option (NotificationReadState User))
      (n : Notification User)
      → is_in_bin dec retention now user row n ≡ true
      → is_mine dec user n ≡ true
  in_bin-is_mine retention now user row n h = elim (Bool-cases (is_addressed dec user row n)) [
    | inl b ↦ addressed-is_mine user row n b
    | inr b ↦ absurd (ground (arith, h, b))
  ]

  bin_same :
      (retention now : ℕ) (user : User) (old new : Inbox User)
      → SameView user old new
      → binned_query dec retention now user new ≡ binned_query dec retention now user old
  unfolding binned_query
  bin_same retention now user old new s =
      sym (
        select-addressed _ user new
          (λ e. in_bin-is_mine retention now user (state_of dec user e.0 new.read_states) e.1))
      ∙ (λ i. select (λ e. is_in_bin dec retention now user (s.states e.0 i) e.1) (s.rows i))
      ∙ select-addressed _ user old
          (λ e. in_bin-is_mine retention now user (state_of dec user e.0 old.read_states) e.1)

  -- The pages that a user is shown, and the number beside them.
  pub record SamePages (user : User) (old new : Inbox User) : Type 0 where
    pub listed :
        (now : ℕ) (source : Option NotificationSource) (unread : Bool) (state : Option Text)
        (limit offset : ℤ)
        → list_notifications dec now user source unread state limit offset new
          ≡ list_notifications dec now user source unread state limit offset old
    pub binned :
        (retention now : ℕ) (limit offset : ℤ)
        → list_binned_notifications dec retention now user limit offset new
          ≡ list_binned_notifications dec retention now user limit offset old
    pub counted :
        (now : ℕ) (state : Option Text)
        → unread_count dec now user state new ≡ unread_count dec now user state old

  pub SameView-SamePages :
      (user : User) (old new : Inbox User) → SameView user old new → SamePages user old new
  unfolding list_notifications list_binned_notifications unread_count
  SameView-SamePages user old new s = record {
    listed = λ now source unread state limit offset i.
        map (λ e. (e.0, overlaid dec (s.states e.0 i) e.1))
          (page (notifications_limit limit) (at_least 0 (or_default 0 offset))
            (order_by (newest dec) (query_same now user source unread state old new s i)));
    binned = λ retention now limit offset i.
        map (λ e. (e.0, overlaid dec (s.states e.0 i) e.1))
          (page (notifications_limit limit) (at_least 0 (or_default 0 offset)) (
            order_by
              (λ e f.
                ltb (binned_time_of dec (s.states f.0 i) f.1)
                  (binned_time_of dec (s.states e.0 i) e.1))
              (bin_same retention now user old new s i)));
    counted = λ now state. ap length (query_same now user none true state old new s);
  }

  pub unchanged : (user : User) (inbox : Inbox User) → SameView user inbox inbox
  unchanged user inbox = record { rows = refl; states = λ id. refl }
