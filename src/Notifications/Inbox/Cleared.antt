-- ===== src/Notifications/Inbox/Cleared.antt =====
-- What a user is shown after `mark_all_read`.
use metroflow_ai_backend.Common.{
  ℕ, ◌≤◌, ◌≡◌, refl, ap, ◌⊎◌, Bool, true, false, not, Option, none, some, List, [], ◌∷◌, is_some,
  if◌then◌else◌, inl, inr, Option-cases, Bool-cases, length, All, All-map, select, select-map_none,
  Text, arith,
}
use metroflow_ai_backend.Common.Dict.{Dict, keys}
use metroflow_ai_backend.Geo.{cities_for_state}
use metroflow_ai_backend.Notifications.Inbox.{
  Notification, NotificationReadState, Inbox, state_of, matches, is_addressed, is_unread,
  is_retained, effective_binned_at, binned_at_of, notifications_query, unread_count,
}
use metroflow_ai_backend.Notifications.Inbox.Actions.{
  is_own_unread, is_unread_broadcast, mark_all_read,
}
use metroflow_ai_backend.Notifications.Inbox.Rows.{is_among, read_and_binned, upsert_states}
use metroflow_ai_backend.Notifications.Inbox.Upsert.{upsert_states-IsClosed, upsert_states_keeps}

-- The ids of the rows that a test takes.
pub All-among :
    {V : Type 0} (p : ℕ × V → Bool) (d : Dict ℕ V)
    → All (λ e. p e ≡ true → is_among e.0 (keys (select p d)) ≡ true) d
All-among p [] = tt
All-among p (e ∷ d) =
    (λ h. ground (arith, h), All-map (λ f h q. ground (arith, h q)) d (All-among p d))

module _ {User : Type 0} (dec : Discrete User) where
  closes_read :
      (now : ℕ) (r : NotificationReadState User)
      → ((read_and_binned dec now r).user_id ≡ r.user_id)
        × ((read_and_binned dec now r).notification_id ≡ r.notification_id)
        × (not (is_some (read_and_binned dec now r).read_at) ≡ false)
  closes_read now r = (refl, refl, refl)

  not_matched :
      (later : ℕ) (user : User) (cities : Option (List Text))
      (row : Option (NotificationReadState User)) (n : Notification User)
      → (is_retained later n.created_at ≡ false)
        ⊎ (is_addressed dec user row n ≡ false)
        ⊎ (is_unread dec row n ≡ false)
      → matches dec later user none true cities row n ≡ false
  not_matched later user cities row n h =
      ground (arith, h, Bool-cases (is_some (effective_binned_at dec row n)))

  -- The state of a notification after the upsert of `mark_all_read`.
  abbrev read_after : ℕ → User → List ℕ → Inbox User → ℕ → Option (NotificationReadState User)
  read_after now user ids inbox id = state_of dec user id (
      upsert_states dec (λ r. not (is_some r.read_at)) (read_and_binned dec now) user ids
        inbox.read_states)

  -- A broadcast after the rows of some ids were read and binned: not unread if it was among them, or
  -- was not unread before.
  read_not_unread :
      (now later : ℕ) (user : User) (ids : List ℕ) (inbox : Inbox User) (e : ℕ × Notification User)
      (cities : Option (List Text))
      → now ≤ later
      → (is_unread_broadcast dec now (state_of dec user e.0 inbox.read_states) e.1 ≡ true
          → is_among e.0 ids ≡ true)
      → e.1.user_id ≡ none
      → matches dec later user none true cities (read_after now user ids inbox e.0) e.1 ≡ false
  read_not_unread now later user ids inbox e cities le among o =
      let st = state_of dec user e.0 inbox.read_states in
      elim (Bool-cases (is_unread_broadcast dec now st e.1)) [
        | inl u ↦
            let (row, found, closed) =
              upsert_states-IsClosed dec (λ r. not (is_some r.read_at)) (read_and_binned dec now)
                (closes_read now) user ids e.0 inbox.read_states (among u) in
            rw found
              (not_matched later user cities (some row) e.1 (inr (inr (ground (arith, o, closed)))))
        | inr u ↦ elim (Bool-cases (is_retained now e.1.created_at)) [
          | inr r ↦
              not_matched later user cities (read_after now user ids inbox e.0) e.1
                (inl (ground (arith, r, le)))
          | inl r ↦ elim (Option-cases st) [
            | inl a ↦ absurd (ground (arith, u, r, o, a))
            | inr (row, a) ↦ elim (Bool-cases (is_some row.read_at)) [
              | inl b ↦
                  let (new, found, kept) =
                    upsert_states_keeps dec (λ r. not (is_some r.read_at)) (read_and_binned dec now)
                      (closes_read now) {P = λ r. is_some r.read_at ≡ true} (λ r p. refl) user ids
                      e.0 inbox.read_states row a b in
                  rw found (
                    not_matched later user cities (some new) e.1
                      (inr (inr (ground (arith, o, kept)))))
              | inr b ↦
                  let (new, found, kept) =
                    upsert_states_keeps dec (λ r. not (is_some r.read_at)) (read_and_binned dec now)
                      (closes_read now) {P = λ r. is_some r.deleted_at ≡ true} (λ r p. p) user ids
                      e.0 inbox.read_states row a (ground (arith, u, r, o, a, b)) in
                  rw found (
                    not_matched later user cities (some new) e.1
                      (inr (inl (ground (arith, o, kept)))))
            ]
          ]
        ]
      ]

  -- A personal notification that `mark_all_read` does not take.
  other_not_unread :
      (now later : ℕ) (user owner : User) (n : Notification User)
      (row : Option (NotificationReadState User)) (cities : Option (List Text))
      → now ≤ later
      → n.user_id ≡ some owner
      → is_own_unread dec now user n ≡ false
      → matches dec later user none true cities row n ≡ false
  other_not_unread now later user owner n row cities le o b = ground (
    arith,
    o,
    b,
    le,
    Option-cases n.binned_at,
    Option-cases (binned_at_of dec row),
    Bool-cases n.is_read,
  )

  taken_not_unread :
      (later time : ℕ) (user : User) (n : Notification User)
      (row : Option (NotificationReadState User)) (cities : Option (List Text))
      → matches dec later user none true cities row
          (record n { is_read = true; binned_at = some time })
        ≡ false
  taken_not_unread later time user n row cities =
      ground
        (arith, Option-cases (binned_at_of dec row), Bool-cases (is_retained later n.created_at))

  -- One row of the table, after `mark_all_read`.
  marked_not_unread :
      (now later : ℕ) (user : User) (ids : List ℕ) (inbox : Inbox User) (e : ℕ × Notification User)
      (cities : Option (List Text))
      → now ≤ later
      → (is_unread_broadcast dec now (state_of dec user e.0 inbox.read_states) e.1 ≡ true
          → is_among e.0 ids ≡ true)
      → let f : ℕ × Notification User =
          if is_own_unread dec now user e.1
          then (e.0, record e.1 { is_read = true; binned_at = some now })
          else e in
        matches dec later user none true cities (read_after now user ids inbox f.0) f.1 ≡ false
  marked_not_unread now later user ids inbox e cities le among =
      elim (Bool-cases (is_own_unread dec now user e.1)) [
        | inl b ↦
            rw b (taken_not_unread later now user e.1 (read_after now user ids inbox e.0) cities)
        | inr b ↦ rw b (elim (Option-cases e.1.user_id) [
          | inl o ↦ read_not_unread now later user ids inbox e cities le among o
          | inr (owner, o) ↦
              other_not_unread now later user owner e.1 (read_after now user ids inbox e.0) cities
                le o b
        ])
      ]

  -- After a user marks all as read, the user's count of unread notifications is zero, whatever state
  -- it is asked for, until something new comes.
  pub unread_count-mark_all_read :
      (now later : ℕ) (user : User) (state : Option Text) (inbox : Inbox User)
      → now ≤ later
      → unread_count dec later user state (mark_all_read dec now user inbox).1 ≡ 0
  unfolding unread_count notifications_query mark_all_read
  unread_count-mark_all_read now later user state inbox le = ap length (
      select-map_none
        (λ e.
          matches dec later user none true (cities_for_state state)
            (state_of dec user e.0 (mark_all_read dec now user inbox).1.read_states) e.1)
        _ inbox.notifications
        (All-map
          (λ e among. marked_not_unread now later user _ inbox e (cities_for_state state) le among)
          inbox.notifications
          (All-among
            (λ e. is_unread_broadcast dec now (state_of dec user e.0 inbox.read_states) e.1)
            inbox.notifications)))
