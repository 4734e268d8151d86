-- ===== src/Notifications/Inbox/Rows.antt =====
-- The statements on notification_read_states of app/services/notification_service.py.
use metroflow_ai_backend.Common.{
  ℕ, ◌+◌, Bool, true, false, ◌&&◌, not, Option, none, some, List, [], ◌∷◌, ◌++◌, map, ltb,
  if◌then◌else◌, ◌==◌, is_some, ite, length,
}
use metroflow_ai_backend.Notifications.Inbox.{NotificationReadState, is_state_of, state_of}

-- The columns that `_mark_broadcast_state` sets.
pub data StateColumn : Type 0 where
  read_at binned_at : StateColumn

abbrev pub is_among : ℕ → List ℕ → Bool
is_among id [] = false
is_among id (i ∷ ids) = if i == id then true else is_among id ids

module _ {User : Type 0} (dec : Discrete User) where
  abbrev pub column_of : StateColumn → NotificationReadState User → Option ℕ
  column_of read_at row = row.read_at
  column_of binned_at row = row.binned_at

  abbrev pub with_column : StateColumn → ℕ → NotificationReadState User → NotificationReadState User
  with_column read_at now row = record row { read_at = some now }
  with_column binned_at now row = record row { binned_at = some now }

  abbrev pub no_state : User → ℕ → NotificationReadState User
  no_state user id = record {
    user_id = user;
    notification_id = id;
    read_at = none;
    binned_at = none;
    deleted_at = none;
  }

  -- `_mark_broadcast_state`: whether it set the column, and the table.
  unfoldable pub mark_broadcast_state :
      ℕ
      → User
      → ℕ
      → StateColumn
      → List (NotificationReadState User)
      → Bool × List (NotificationReadState User)
  unfolding state_of
  mark_broadcast_state now user id column rows = elim (state_of dec user id rows) [
    | none ↦ (true, rows ++ with_column column now (no_state user id) ∷ [])
    | some row ↦ (
      not (is_some (column_of column row)),
      map
          (λ r.
            if is_state_of dec user id r && not (is_some (column_of column r))
            then with_column column now r
            else r)
          rows,
    )
  ]

  -- `INSERT … ON CONFLICT DO NOTHING` of a row for each id: how many were inserted, and the table.
  unfoldable pub insert_states :
      (ℕ → NotificationReadState User)
      → User
      → List ℕ
      → List (NotificationReadState User)
      → ℕ × List (NotificationReadState User)
  unfolding state_of
  insert_states new user [] rows = (0, rows)
  insert_states new user (id ∷ ids) rows = elim (state_of dec user id rows) [
    | none ↦ let rest = insert_states new user ids (rows ++ new id ∷ []) in (rest.0 + 1, rest.1)
    | some row ↦ insert_states new user ids rows
  ]

  -- `UPDATE … WHERE user_id = … AND notification_id IN (ids) AND …`
  abbrev pub update_states :
      (NotificationReadState User → Bool)
      → (NotificationReadState User → NotificationReadState User)
      → User
      → List ℕ
      → List (NotificationReadState User)
      → List (NotificationReadState User)
  update_states is_open set user ids = map (λ r.
      if ite (dec r.user_id user) (is_among r.notification_id ids && is_open r) false
      then set r
      else r)

  abbrev pub read_and_binned : ℕ → NotificationReadState User → NotificationReadState User
  read_and_binned now row = record row { read_at = some now; binned_at = some now }

  abbrev pub deleted : ℕ → NotificationReadState User → NotificationReadState User
  deleted now row = record row { deleted_at = some now }

  -- The insert, and the update where it left some out.
  unfoldable pub upsert_states :
      (NotificationReadState User → Bool)
      → (NotificationReadState User → NotificationReadState User)
      → User
      → List ℕ
      → List (NotificationReadState User)
      → List (NotificationReadState User)
  unfolding insert_states
  upsert_states is_open set user ids rows =
      let inserted = insert_states (λ id. set (no_state user id)) user ids rows in
      if ltb inserted.0 (length ids)
      then update_states is_open set user ids inserted.1
      else inserted.1
