-- ===== src/Notifications/Inbox/Upsert.antt =====
-- After the insert-or-update of `mark_all_read` and `delete_all_notifications`, the user has a row
-- that is closed for each id.
use metroflow_ai_backend.Common.{
  ℕ, ◌≤◌, ◌≡◌, ◌⊎◌, Bool, true, false, ◌&&◌, none, some, List, [], ◌∷◌, ◌++◌, ltb, if◌then◌else◌,
  ite, inl, inr, Bool-cases, Option-cases, length, arith,
}
use metroflow_ai_backend.Notifications.Inbox.{NotificationReadState, state_of}
use metroflow_ai_backend.Notifications.Inbox.Rows.{is_among, no_state, insert_states, upsert_states}
use metroflow_ai_backend.Notifications.Inbox.States.{
  state_of-append_old, state_of-append_new, state_of-map,
}

module _ {User : Type 0} (dec : Discrete User) (is_open : NotificationReadState User → Bool)
    (set : NotificationReadState User → NotificationReadState User) where
  -- A row of the user for an id, which the update has nothing to do with.
  abbrev pub IsClosed : User → ℕ → List (NotificationReadState User) → Type 0
  IsClosed u id rows =
      (row : NotificationReadState User) × (state_of dec u id rows ≡ some row)
      × (is_open row ≡ false)

  -- What the callers' `set` does.
  abbrev pub Closes : Type 0
  Closes =
      (r : NotificationReadState User)
      → ((set r).user_id ≡ r.user_id)
        × ((set r).notification_id ≡ r.notification_id)
        × (is_open (set r) ≡ false)

  abbrev new : User → ℕ → NotificationReadState User
  new u id = set (no_state dec u id)

  state_of_user :
      (u : User) (id : ℕ) (rows : List (NotificationReadState User))
      (row : NotificationReadState User)
      → state_of dec u id rows ≡ some row
      → (row.user_id ≡ u) × (row.notification_id ≡ id)
  unfolding state_of
  state_of_user u id [] row h = ground (arith, h)
  state_of_user u id (r ∷ rows) row h = ground (arith, h, state_of_user u id rows row)

  -- An insert keeps the rows that there are.
  insert_states_old :
      (u : User) (ids : List ℕ) (id : ℕ) (rows : List (NotificationReadState User))
      (row : NotificationReadState User)
      → state_of dec u id rows ≡ some row
      → state_of dec u id (insert_states dec (new u) u ids rows).1 ≡ some row
  unfolding insert_states
  insert_states_old u [] id rows row h = h
  insert_states_old u (i ∷ ids) id rows row h = elim (Option-cases (state_of dec u i rows)) [
    | inl a ↦
        rw (insert_states, a)
          (insert_states_old u ids id _ row (state_of-append_old dec u id rows (new u i) row h))
    | inr (r, e) ↦ rw (insert_states, e) (insert_states_old u ids id rows row h)
  ]

  length-insert_states :
      (u : User) (ids : List ℕ) (rows : List (NotificationReadState User))
      → (insert_states dec (new u) u ids rows).0 ≤ length ids
  unfolding insert_states
  length-insert_states u [] rows = omega arith
  length-insert_states u (i ∷ ids) rows = elim (Option-cases (state_of dec u i rows)) [
    | inl a ↦
        rw (insert_states, a) (omega (arith, length-insert_states u ids (rows ++ new u i ∷ [])))
    | inr (r, e) ↦ rw (insert_states, e) (omega (arith, length-insert_states u ids rows))
  ]

  new_row :
      Closes
      → (u : User) (id : ℕ) (rows : List (NotificationReadState User))
      → state_of dec u id rows ≡ none
      → state_of dec u id (rows ++ new u id ∷ []) ≡ some (new u id)
  new_row c u id rows h =
      state_of-append_new dec u id rows (new u id) (c (no_state dec u id)).0
        (c (no_state dec u id)).1 h

  among_head :
      (id i : ℕ) (ids : List ℕ) → is_among id (i ∷ ids) ≡ true → (i ≡ id) ⊎ (is_among id ids ≡ true)
  among_head id i ids h = ground (arith, h)

  -- After the insert, each id has a row; if all were inserted, each row is new.
  insert_states_covers :
      Closes
      → (u : User) (ids : List ℕ) (id : ℕ) (rows : List (NotificationReadState User))
      → is_among id ids ≡ true
      → (row : NotificationReadState User) × (state_of dec u id
            (insert_states dec (new u) u ids rows).1
          ≡ some row)
        × ((insert_states dec (new u) u ids rows).0 ≡ length ids → is_open row ≡ false)
  unfolding insert_states
  insert_states_covers c u [] id rows h = ground (arith, h)
  insert_states_covers c u (i ∷ ids) id rows h = elim (Option-cases (state_of dec u i rows)) [
    | inl a ↦
        rw (insert_states, a)
          (elim (among_head id i ids h) [
            | inl e ↦ (
              new u i,
              rw (← e) (
                  insert_states_old u ids i (rows ++ new u i ∷ []) (new u i)
                    (new_row c u i rows a)),
              λ all. (c (no_state dec u i)).2,
            )
            | inr m ↦
                let (row, found, closed) =
                  insert_states_covers c u ids id (rows ++ new u i ∷ []) m in
                (row, found, λ all. closed (omega (arith, all)))
          ])
    | inr (r, a) ↦
        rw (insert_states, a)
          (elim (among_head id i ids h) [
            | inl e ↦ (
              r,
              rw (← e) (insert_states_old u ids i rows r a),
              λ all. absurd (omega (arith, all, length-insert_states u ids rows)),
            )
            | inr m ↦
                let (row, found, closed) = insert_states_covers c u ids id rows m in
                (row, found, λ all. absurd (omega (arith, all, length-insert_states u ids rows)))
          ])
  ]

  -- After the upsert, the user has a closed row for each id.
  pub upsert_states-IsClosed :
      Closes
      → (u : User) (ids : List ℕ) (id : ℕ) (rows : List (NotificationReadState User))
      → is_among id ids ≡ true
      → IsClosed u id (upsert_states dec is_open set u ids rows)
  unfolding upsert_states
  upsert_states-IsClosed c u ids id rows h =
      let (row, found, closed) = insert_states_covers c u ids id rows h in
      let length_le = length-insert_states u ids rows in
      elim (Bool-cases (ltb (insert_states dec (new u) u ids rows).0 (length ids))) [
        | inl b ↦
            rw (upsert_states, b)
              (
                (if ite (dec row.user_id u) (is_among row.notification_id ids && is_open row) false
                    then set row
                    else row),
                state_of-map dec u id _ (insert_states dec (new u) u ids rows).1 row
                    (λ r. ground (arith, (c r).0, (c r).1)) found,
                ground
                    (arith, h, (c row).2, state_of_user u id _ row found, Bool-cases (is_open row)),
              )
        | inr b ↦ rw (upsert_states, b) (row, found, closed (ground (arith, b, length_le)))
      ]

  -- The upsert keeps what `set` keeps of a row.
  pub upsert_states_keeps :
      Closes
      → {P : NotificationReadState User → Type 0}
      → ((r : NotificationReadState User) → P r → P (set r))
      → (u : User) (ids : List ℕ) (id : ℕ) (rows : List (NotificationReadState User))
        (row : NotificationReadState User)
      → state_of dec u id rows ≡ some row
      → P row
      → (r : NotificationReadState User) × (state_of dec u id
            (upsert_states dec is_open set u ids rows)
          ≡ some r)
        × P r
  unfolding upsert_states
  upsert_states_keeps c kept u ids id rows row h p =
      let found = insert_states_old u ids id rows row h in
      elim (Bool-cases (ltb (insert_states dec (new u) u ids rows).0 (length ids))) [
        | inl b ↦
            rw (upsert_states, b)
              (
                _,
                state_of-map dec u id _ (insert_states dec (new u) u ids rows).1 row
                    (λ r. ground (arith, (c r).0, (c r).1)) found,
                elim (Bool-cases (
                    ite (dec row.user_id u) (is_among row.notification_id ids && is_open row)
                      false)) [ inl t ↦ rw t (kept row p) | inr t ↦ rw t p ],
              )
        | inr b ↦ rw (upsert_states, b) (row, found, p)
      ]
