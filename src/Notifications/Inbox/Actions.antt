-- ===== src/Notifications/Inbox/Actions.antt =====
-- The operations of app/services/notification_service.py that change the tables.
use metroflow_ai_backend.Common.{
  ℕ, ◌+◌, Bool, true, false, ◌&&◌, not, Option, none, some, [], ◌∷◌, ◌++◌, map, ltb, if◌then◌else◌,
  is_some, ite, take, select, length, Text, ℕ_discrete,
}
use metroflow_ai_backend.Common.Dict.{keys, lookup, insert}
use metroflow_ai_backend.Notifications.Inbox.{
  NotificationSource, Notification, NotificationReadState, Inbox, Notice, whole, only_id, empty,
  notify, notify_user, state_of, read_at_of, deleted_at_of, is_retained,
}
use metroflow_ai_backend.Websocket.Events.{
  notification, notification_read, notification_all_read, notification_deleted,
  notification_all_deleted,
}
use metroflow_ai_backend.Notifications.Inbox.Rows.{
  read_at, binned_at, mark_broadcast_state, read_and_binned, deleted, upsert_states,
}

module _ {User : Type 0} (dec : Discrete User) where
  -- `notification.user_id is None or str(notification.user_id) == str(current_user.id)`
  abbrev pub is_mine : User → Notification User → Bool
  is_mine user n = elim n.user_id [ none ↦ true | some owner ↦ ite (dec owner user) true false ]

  -- The notification of an id that a user may change; where there is none, the answer is 404.
  unfoldable pub find_mine : ℕ → User → Inbox User → Option (Notification User)
  find_mine id user inbox = elim (lookup ℕ_discrete id inbox.notifications) [
    | none ↦ none
    | some n ↦ if is_mine user n then some n else none
  ]

  abbrev pub send : Bool → Notice User → Inbox User → Inbox User
  send wanted notice inbox = record inbox {
    notices = if wanted then notice ∷ inbox.notices else inbox.notices;
  }

  unfoldable pub mark_read : ℕ → ℕ → User → Inbox User → Option (Notification User) × Inbox User
  unfolding find_mine mark_broadcast_state
  mark_read now id user inbox = elim (find_mine id user inbox) [
    | none ↦ (none, inbox)
    | some n ↦ elim n.user_id [
      | none ↦
          let (just_read, rows) = mark_broadcast_state dec now user id read_at inbox.read_states in
          (
            some (record n { is_read = true }),
            send just_read (notify_user user notification_read (only_id id))
                (record inbox { read_states = rows }),
          )
      | some owner ↦ if n.is_read then (some n, inbox) else (
        some (record n { is_read = true }),
        send true (notify_user user notification_read (only_id id)) (record inbox {
          notifications = insert ℕ_discrete id (record n { is_read = true }) inbox.notifications;
        }),
      )
    ]
  ]

  -- The rows of `mark_all_read`'s first update.
  abbrev pub is_own_unread : ℕ → User → Notification User → Bool
  is_own_unread now user n = elim n.user_id [
    | none ↦ false
    | some owner ↦
        ite (dec owner user) true false
        && is_retained now n.created_at
        && not (is_some n.binned_at)
        && not n.is_read
  ]

  -- The broadcasts that `mark_all_read` takes.
  abbrev pub is_unread_broadcast :
      ℕ → Option (NotificationReadState User) → Notification User → Bool
  is_unread_broadcast now row n =
      not (is_some n.user_id)
      && is_retained now n.created_at
      && not (is_some (read_at_of dec row))
      && not (is_some (deleted_at_of dec row))

  unfoldable pub mark_all_read : ℕ → User → Inbox User → ℕ × Inbox User
  unfolding state_of upsert_states
  mark_all_read now user inbox =
      let personal = select (λ e. is_own_unread now user e.1) inbox.notifications in
      let broadcast_ids = keys (
        select (λ e. is_unread_broadcast now (state_of dec user e.0 inbox.read_states) e.1)
          inbox.notifications) in
      let updated = length personal + length broadcast_ids in
      (
        updated,
        send (ltb 0 updated) (notify_user user notification_all_read empty) (record inbox {
          notifications =
              map
                (λ e.
                  if is_own_unread now user e.1
                  then (e.0, record e.1 { is_read = true; binned_at = some now })
                  else e)
                inbox.notifications;
          read_states =
              upsert_states dec (λ r. not (is_some r.read_at)) (read_and_binned dec now) user
                broadcast_ids inbox.read_states;
        }),
      )

  -- Whether the notification was found, and what is left.
  unfoldable pub delete_notification : ℕ → ℕ → User → Inbox User → Bool × Inbox User
  unfolding find_mine mark_broadcast_state
  delete_notification now id user inbox = elim (find_mine id user inbox) [
    | none ↦ (false, inbox)
    | some n ↦
        let binned : Inbox User = elim n.user_id [
          | none ↦ record inbox {
            read_states = (mark_broadcast_state dec now user id binned_at inbox.read_states).1;
          }
          | some owner ↦ if is_some n.binned_at then inbox else record inbox {
            notifications =
                insert ℕ_discrete id (record n { binned_at = some now }) inbox.notifications;
          }
        ] in
        (true, send true (notify_user user notification_deleted (only_id id)) binned)
  ]

  abbrev pub is_own : User → Notification User → Bool
  is_own user n = elim n.user_id [ none ↦ false | some owner ↦ ite (dec owner user) true false ]

  unfoldable pub delete_all_notifications : ℕ → User → Inbox User → ℕ × Inbox User
  unfolding state_of upsert_states
  delete_all_notifications now user inbox =
      let own = select (λ e. is_own user e.1) inbox.notifications in
      let left = select (λ e. not (is_own user e.1)) inbox.notifications in
      let broadcast_ids = keys (
        select
          (λ e.
            not (is_some e.1.user_id)
            && not (is_some (deleted_at_of dec (state_of dec user e.0 inbox.read_states))))
          left) in
      let count = length own + length broadcast_ids in
      (
        count,
        send (ltb 0 count) (notify_user user notification_all_deleted empty) (record inbox {
          notifications = left;
          read_states =
              upsert_states dec (λ r. not (is_some r.deleted_at)) (deleted dec now) user
                broadcast_ids inbox.read_states;
        }),
      )

  unfoldable pub create_notification :
      ℕ
      → NotificationSource
      → Text
      → Text
      → Option User
      → Option ℕ
      → Option Text
      → Inbox User
      → ℕ × Inbox User
  create_notification now source title message user_id related_alert_id state inbox =
      let n : Notification User = record {
        user_id = user_id;
        source = source;
        title = take 200 title;
        message = take 1000 message;
        related_alert_id = related_alert_id;
        state = state;
        is_read = false;
        binned_at = none;
        created_at = now;
      } in
      let id = inbox.next_id in
      (
        id,
        record inbox {
          notifications = inbox.notifications ++ (id, n) ∷ [];
          next_id = id + 1;
          notices =
              elim user_id [
                | none ↦ notify notification (whole id n)
                | some user ↦ notify_user user notification (whole id n)
              ]
              ∷ inbox.notices;
        },
      )
