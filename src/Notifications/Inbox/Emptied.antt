-- ===== src/Notifications/Inbox/Emptied.antt =====
-- What a user is shown after `delete_all_notifications`.
use metroflow_ai_backend.Common.{
  ℕ, ◌≡◌, refl, ap, ◌∙◌, Bool, true, false, not, ◌&&◌, Option, List, [], is_some, inl, inr,
  Option-cases, All, All-map, All-both, page, page_nil, order_by, at_least, or_default, select,
  select-All, select_none, Text, ℤ, arith,
}
use metroflow_ai_backend.Geo.{cities_for_state}
use metroflow_ai_backend.Notifications.Inbox.{
  NotificationSource, Notification, NotificationReadState, Inbox, state_of, matches, is_addressed,
  effective_binned_at, newest, last_binned, overlay_broadcast_state, notifications_limit, is_in_bin,
  deleted_at_of, notifications_query, binned_query, list_notifications, list_binned_notifications,
}
use metroflow_ai_backend.Notifications.Inbox.Actions.{is_own, delete_all_notifications}
use metroflow_ai_backend.Notifications.Inbox.Rows.{is_among, deleted, upsert_states}
use metroflow_ai_backend.Notifications.Inbox.Upsert.{upsert_states-IsClosed, upsert_states_keeps}
use metroflow_ai_backend.Notifications.Inbox.Cleared.{All-among}

module _ {User : Type 0} (dec : Discrete User) where
  closes_deleted :
      (now : ℕ) (r : NotificationReadState User)
      → ((deleted dec now r).user_id ≡ r.user_id)
        × ((deleted dec now r).notification_id ≡ r.notification_id)
        × (not (is_some (deleted dec now r).deleted_at) ≡ false)
  closes_deleted now r = (refl, refl, refl)

  -- A notification that was not deleted by the user, of this user or of all.
  delete_all_hides :
      (now : ℕ) (user : User) (ids : List ℕ) (inbox : Inbox User) (e : ℕ × Notification User)
      → not (is_own dec user e.1) ≡ true
      → (not (is_some e.1.user_id)
              && not (is_some (deleted_at_of dec (state_of dec user e.0 inbox.read_states)))
            ≡ true
          → is_among e.0 ids ≡ true)
      → is_addressed dec user
          (state_of dec user e.0 (
            upsert_states dec
              (λ r. not (is_some r.deleted_at))
              (deleted dec now)
              user
              ids
              inbox.read_states))
          e.1
        ≡ false
  delete_all_hides now user ids inbox e other among = elim (Option-cases e.1.user_id) [
    | inr (owner, o) ↦ ground (arith, o, other)
    | inl o ↦ elim (Option-cases (deleted_at_of dec (state_of dec user e.0 inbox.read_states))) [
      | inl d ↦
          let (row, found, closed) =
            upsert_states-IsClosed dec (λ r. not (is_some r.deleted_at)) (deleted dec now)
              (closes_deleted now) user ids e.0 inbox.read_states (among (rw (o, d) refl)) in
          rw (o, found) (ground (arith, closed))
      | inr (time, d) ↦ elim (Option-cases (state_of dec user e.0 inbox.read_states)) [
        | inl a ↦ absurd (ground (arith, a, d))
        | inr (row, a) ↦
            let (r, found, kept) =
              upsert_states_keeps dec (λ r. not (is_some r.deleted_at)) (deleted dec now)
                (closes_deleted now) {P = λ r. is_some r.deleted_at ≡ true} (λ r p. refl) user ids
                e.0 inbox.read_states row a (ground (arith, a, d)) in
            rw (o, found) (ground (arith, kept))
      ]
    ]
  ]

  hidden_not_in_bin :
      (retention later : ℕ) (user : User) (row : Option (NotificationReadState User))
      (n : Notification User)
      → is_addressed dec user row n ≡ false
      → is_in_bin dec retention later user row n ≡ false
  hidden_not_in_bin retention later user row n h =
      elim (Option-cases (effective_binned_at dec row n)) [
        | inl a ↦ rw (is_in_bin, a) refl
        | inr (time, a) ↦ rw (is_in_bin, a, h) (ground arith)
      ]

  -- What `delete_all_notifications` leaves is addressed to nobody, or to others.
  left_hidden :
      (now : ℕ) (user : User) (inbox : Inbox User)
      → All
          (λ e.
            is_addressed dec user
              (state_of dec user e.0 (delete_all_notifications dec now user inbox).1.read_states)
              e.1
            ≡ false)
          (delete_all_notifications dec now user inbox).1.notifications
  unfolding delete_all_notifications
  left_hidden now user inbox =
      let left = select (λ e. not (is_own dec user e.1)) inbox.notifications in
      All-both (λ e other among. delete_all_hides now user _ inbox e other among) left
        (select-All (λ e. not (is_own dec user e.1)) inbox.notifications (λ e h. h))
        (All-among
          (λ e.
            not (is_some e.1.user_id)
            && not (is_some (deleted_at_of dec (state_of dec user e.0 inbox.read_states))))
          left)

  -- After a user deletes all notifications, the user's lists are empty: no page has a notification,
  -- whatever it asks for, and neither has a page of the bin.
  pub delete_all_clears :
      (now later retention : ℕ) (user : User) (source : Option NotificationSource) (unread : Bool)
      (state : Option Text) (limit offset : ℤ) (inbox : Inbox User)
      → (list_notifications dec later user source unread state limit offset
            (delete_all_notifications dec now user inbox).1
          ≡ [])
        × (list_binned_notifications dec retention later user limit offset
              (delete_all_notifications dec now user inbox).1
            ≡ [])
  unfolding list_notifications notifications_query list_binned_notifications binned_query
  delete_all_clears now later retention user source unread state limit offset inbox =
      let hidden = left_hidden now user inbox in
      let inbox' = (delete_all_notifications dec now user inbox).1 in
      let listed =
        select_none
          (λ e.
            matches dec later user source unread (cities_for_state state)
              (state_of dec user e.0 inbox'.read_states) e.1)
          inbox'.notifications (All-map (λ e h. ground (arith, h)) inbox'.notifications hidden) in
      let binned =
        select_none
          (λ e. is_in_bin dec retention later user (state_of dec user e.0 inbox'.read_states) e.1)
          inbox'.notifications
          (All-map
            (λ e h.
              hidden_not_in_bin retention later user (state_of dec user e.0 inbox'.read_states) e.1
                h)
            inbox'.notifications hidden) in
      let width = notifications_limit limit in
      let start = at_least 0 (or_default 0 offset) in
      (
        ap
              (λ d.
                overlay_broadcast_state dec user inbox'
                  (page width start (order_by (newest dec) d)))
              listed
            ∙ ap (overlay_broadcast_state dec user inbox') (page_nil width start),
        ap
              (λ d.
                overlay_broadcast_state dec user inbox'
                  (page width start (order_by (last_binned dec user inbox') d)))
              binned
            ∙ ap (overlay_broadcast_state dec user inbox') (page_nil width start),
      )
