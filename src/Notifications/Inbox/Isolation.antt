-- ===== src/Notifications/Inbox/Isolation.antt =====
-- What one user does with notifications is not seen by another.
use metroflow_ai_backend.Common.{
  List, ℕ, ◌≡◌, ◌≢◌, refl, sym, ◌∙◌, true, false, not, some, is_some, inl, inr, Option-cases,
  Bool-cases, select_within, select-map_same, arith, ℕ_discrete,
}
use metroflow_ai_backend.Common.Dict.{lookup, insert}
use metroflow_ai_backend.Common.Dict.Order.{select-insert_same}
use metroflow_ai_backend.Notifications.Inbox.{Notification, Inbox, Notice}
use metroflow_ai_backend.Notifications.Inbox.Actions.{
  is_own_unread, is_own, is_mine, find_mine, mark_read, mark_all_read, delete_notification,
  delete_all_notifications,
}
use metroflow_ai_backend.Notifications.Inbox.Rows.{read_at, binned_at, read_and_binned, deleted}
use metroflow_ai_backend.Notifications.Inbox.States.{
  mark_broadcast_state_other, upsert_states_other,
}
use metroflow_ai_backend.Notifications.Inbox.View.{
  SameView, SamePages, SameView-SamePages, unchanged,
}

-- A request of a user that changes notifications.
pub data Request : Type 0 where
  reads : ℕ → Request
  reads_all : Request
  deletes : ℕ → Request
  deletes_all : Request

module _ {User : Type 0} (dec : Discrete User) where
  abbrev pub perform : ℕ → User → Request → Inbox User → Inbox User
  perform now user request inbox = elim request [
    | reads id ↦ (mark_read dec now id user inbox).1
    | reads_all ↦ (mark_all_read dec now user inbox).1
    | deletes id ↦ (delete_notification dec now id user inbox).1
    | deletes_all ↦ (delete_all_notifications dec now user inbox).1
  ]

  find_mine_lem :
      (id : ℕ) (user : User) (inbox : Inbox User) (n : Notification User)
      → find_mine dec id user inbox ≡ some n
      → (lookup ℕ_discrete id inbox.notifications ≡ some n) × (is_mine dec user n ≡ true)
  unfolding find_mine
  find_mine_lem id user inbox n h = elim (Option-cases (lookup ℕ_discrete id inbox.notifications)) [
    | inl a ↦ absurd (ground (arith, h, a))
    | inr (m, a) ↦ ground (arith, h, a, Bool-cases (is_mine dec user m))
  ]

  -- What is sent is not part of the view.
  noticed-SameView :
      (notices : List (Notice User)) (user : User) (old new : Inbox User)
      → SameView dec user old new
      → SameView dec user old (record new { notices = notices })
  noticed-SameView notices user old new s = record { rows = s.rows; states = s.states }

  -- A new row of an owner who is not the user.
  changed-SameView :
      (id : ℕ) (v owner : User) (n m : Notification User) (inbox : Inbox User)
      → lookup ℕ_discrete id inbox.notifications ≡ some n
      → n.user_id ≡ some owner
      → m.user_id ≡ some owner
      → owner ≢ v
      → SameView dec v inbox
          (record inbox { notifications = insert ℕ_discrete id m inbox.notifications })
  changed-SameView id v owner n m inbox found e e' ne = record {
    rows =
        select-insert_same ℕ_discrete (λ e. is_mine dec v e.1) id n m inbox.notifications found
          (ground (arith, e, ne)) (ground (arith, e', ne));
    states = λ id. refl;
  }

  owner_lem :
      (u owner : User) (n : Notification User)
      → n.user_id ≡ some owner
      → is_mine dec u n ≡ true
      → owner ≡ u
  owner_lem u owner n e h = ground (arith, e, h)

  mark_read-SameView :
      (u v : User) (now id : ℕ) (inbox : Inbox User)
      → u ≢ v
      → SameView dec v inbox (mark_read dec now id u inbox).1
  unfolding mark_read
  mark_read-SameView u v now id inbox ne = elim (Option-cases (find_mine dec id u inbox)) [
    | inl a ↦ rw (mark_read, a) (unchanged dec v inbox)
    | inr (n, a) ↦ elim (Option-cases n.user_id) [
      | inl e ↦
          rw (mark_read, a, e)
            ((record {
              rows = refl;
              states = mark_broadcast_state_other dec u v now id read_at inbox.read_states ne;
            }))
      | inr (owner, e) ↦
          let (found, mine) = find_mine_lem id u inbox n a in
          elim (Bool-cases n.is_read) [
            | inl b ↦ rw (mark_read, a, e, b) (unchanged dec v inbox)
            | inr b ↦
                rw (mark_read, a, e, b)
                  (noticed-SameView _ v inbox _ (
                    changed-SameView id v owner n _ inbox found e e
                      (λ p. ne (sym (owner_lem u owner n e mine) ∙ p))))
          ]
    ]
  ]

  delete-SameView :
      (u v : User) (now id : ℕ) (inbox : Inbox User)
      → u ≢ v
      → SameView dec v inbox (delete_notification dec now id u inbox).1
  unfolding delete_notification
  delete-SameView u v now id inbox ne = elim (Option-cases (find_mine dec id u inbox)) [
    | inl a ↦ rw (delete_notification, a) (unchanged dec v inbox)
    | inr (n, a) ↦ elim (Option-cases n.user_id) [
      | inl e ↦
          rw (delete_notification, a, e)
            ((record {
              rows = refl;
              states = mark_broadcast_state_other dec u v now id binned_at inbox.read_states ne;
            }))
      | inr (owner, e) ↦
          let (found, mine) = find_mine_lem id u inbox n a in
          elim (Bool-cases (is_some n.binned_at)) [
            | inl b ↦
                rw (delete_notification, a, e, b)
                  (noticed-SameView _ v inbox _ (unchanged dec v inbox))
            | inr b ↦
                rw (delete_notification, a, e, b)
                  (noticed-SameView _ v inbox _ (
                    changed-SameView id v owner n _ inbox found e e
                      (λ p. ne (sym (owner_lem u owner n e mine) ∙ p))))
          ]
    ]
  ]

  own_unread_not_mine :
      (u v : User) (now : ℕ) (n : Notification User)
      → u ≢ v
      → is_own_unread dec now u n ≡ true
      → is_mine dec v n ≡ false
  own_unread_not_mine u v now n ne h = elim (Option-cases n.user_id) [
    | inl e ↦ absurd (ground (arith, e, h))
    | inr (owner, e) ↦ ground (arith, e, h, ne)
  ]

  mark_all_read-SameView :
      (u v : User) (now : ℕ) (inbox : Inbox User)
      → u ≢ v
      → SameView dec v inbox (mark_all_read dec now u inbox).1
  unfolding mark_all_read
  mark_all_read-SameView u v now inbox ne = (record {
    rows =
        select-map_same (λ e. is_mine dec v e.1) _ inbox.notifications
          (λ e. elim (Bool-cases (is_own_unread dec now u e.1)) [
            | inl b ↦ ground (arith, b, own_unread_not_mine u v now e.1 ne b)
            | inr b ↦ ground (arith, b)
          ]);
    states =
        upsert_states_other dec (λ r. not (is_some r.read_at)) (read_and_binned dec now) u v _
          inbox.read_states (λ r. refl) ne;
  })

  mine_not_own :
      (u v : User) (n : Notification User)
      → u ≢ v
      → is_mine dec v n ≡ true
      → not (is_own dec u n) ≡ true
  mine_not_own u v n ne h = elim (Option-cases n.user_id) [
    | inl e ↦ ground (arith, e)
    | inr (owner, e) ↦ ground (arith, e, h, ne)
  ]

  delete_all-SameView :
      (u v : User) (now : ℕ) (inbox : Inbox User)
      → u ≢ v
      → SameView dec v inbox (delete_all_notifications dec now u inbox).1
  unfolding delete_all_notifications
  delete_all-SameView u v now inbox ne = (record {
    rows =
        select_within (λ e. is_mine dec v e.1) (λ e. not (is_own dec u e.1)) inbox.notifications
          (λ e. mine_not_own u v e.1 ne);
    states =
        upsert_states_other dec (λ r. not (is_some r.deleted_at)) (deleted dec now) u v _
          inbox.read_states (λ r. refl) ne;
  })

  -- Whatever one user reads, deletes or empties, every page of notifications, every page of the bin
  -- and every unread count of another user stay as they were.
  pub perform-SamePages :
      (u v : User) (now : ℕ) (request : Request) (inbox : Inbox User)
      → u ≢ v
      → SamePages dec v inbox (perform now u request inbox)
  perform-SamePages u v now (reads id) inbox ne =
      SameView-SamePages dec v inbox _ (mark_read-SameView u v now id inbox ne)
  perform-SamePages u v now reads_all inbox ne =
      SameView-SamePages dec v inbox _ (mark_all_read-SameView u v now inbox ne)
  perform-SamePages u v now (deletes id) inbox ne =
      SameView-SamePages dec v inbox _ (delete-SameView u v now id inbox ne)
  perform-SamePages u v now deletes_all inbox ne =
      SameView-SamePages dec v inbox _ (delete_all-SameView u v now inbox ne)
