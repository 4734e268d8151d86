-- ===== src/Notifications/Inbox/States.antt =====
-- The rows of the read states after an insert or an update, for the user and for the others.
use metroflow_ai_backend.Common.{
  ℕ, ◌≡◌, ◌≢◌, refl, ◌∙◌, Bool, none, some, List, [], ◌∷◌, ◌++◌, map, ltb, if◌then◌else◌, inl, inr,
  Bool-cases, Option-cases, length, arith,
}
use metroflow_ai_backend.Notifications.Inbox.{NotificationReadState, is_state_of, state_of}
use metroflow_ai_backend.Notifications.Inbox.Rows.{
  StateColumn, read_at, binned_at, with_column, no_state, mark_broadcast_state, insert_states,
  upsert_states,
}

module _ {User : Type 0} (dec : Discrete User) where
  state_of-append :
      (v : User) (id : ℕ) (rows : List (NotificationReadState User))
      (r : NotificationReadState User)
      → state_of dec v id (rows ++ r ∷ []) ≡ (elim (state_of dec v id rows) [
        | none ↦ if is_state_of dec v id r then some r else none
        | some row ↦ some row
      ])
  unfolding state_of
  state_of-append v id [] r = refl
  state_of-append v id (row ∷ rows) r = ground (arith, state_of-append v id rows r)

  -- An update that leaves the rows of a user as they are.
  state_of-map_same :
      (v : User) (id : ℕ) (f : NotificationReadState User → NotificationReadState User)
      (rows : List (NotificationReadState User))
      → ((r : NotificationReadState User) → (f r).user_id ≡ r.user_id)
      → ((r : NotificationReadState User) → r.user_id ≡ v → f r ≡ r)
      → state_of dec v id (map f rows) ≡ state_of dec v id rows
  unfolding state_of
  state_of-map_same v id f [] same kept = refl
  state_of-map_same v id f (r ∷ rows) same kept =
      ground (arith, same r, kept r, state_of-map_same v id f rows same kept)

  -- An update that keeps the keys reaches the row that a user has.
  pub state_of-map :
      (v : User) (id : ℕ) (f : NotificationReadState User → NotificationReadState User)
      (rows : List (NotificationReadState User)) (row : NotificationReadState User)
      → ((r : NotificationReadState User)
          → ((f r).user_id ≡ r.user_id) × ((f r).notification_id ≡ r.notification_id))
      → state_of dec v id rows ≡ some row
      → state_of dec v id (map f rows) ≡ some (f row)
  unfolding state_of
  state_of-map v id f [] row same h = ground (arith, h)
  state_of-map v id f (r ∷ rows) row same h =
      ground (arith, same r, h, state_of-map v id f rows row same)

  state_of-append_other :
      (v : User) (id : ℕ) (rows : List (NotificationReadState User))
      (r : NotificationReadState User)
      → r.user_id ≢ v
      → state_of dec v id (rows ++ r ∷ []) ≡ state_of dec v id rows
  unfolding state_of
  state_of-append_other v id [] r ne = ground arith
  state_of-append_other v id (row ∷ rows) r ne =
      ground (arith, state_of-append_other v id rows r ne)

  pub state_of-append_old :
      (v : User) (id : ℕ) (rows : List (NotificationReadState User))
      (r row : NotificationReadState User)
      → state_of dec v id rows ≡ some row
      → state_of dec v id (rows ++ r ∷ []) ≡ some row
  state_of-append_old v id rows r row h = rw (state_of-append v id rows r, h) refl

  pub state_of-append_new :
      (v : User) (id : ℕ) (rows : List (NotificationReadState User))
      (r : NotificationReadState User)
      → r.user_id ≡ v
      → r.notification_id ≡ id
      → state_of dec v id rows ≡ none
      → state_of dec v id (rows ++ r ∷ []) ≡ some r
  state_of-append_new v id rows r u n h = rw (state_of-append v id rows r, h) (ground (arith, u, n))

  with_column_user :
      (column : StateColumn) (now : ℕ) (r : NotificationReadState User)
      → (with_column dec column now r).user_id ≡ r.user_id
  with_column_user read_at now r = refl
  with_column_user binned_at now r = refl

  -- What a user does with one broadcast changes no row of another user.
  pub mark_broadcast_state_other :
      (u v : User) (now id : ℕ) (column : StateColumn) (rows : List (NotificationReadState User))
      → u ≢ v
      → (j : ℕ)
      → state_of dec v j (mark_broadcast_state dec now u id column rows).1 ≡ state_of dec v j rows
  unfolding mark_broadcast_state
  mark_broadcast_state_other u v now id column rows ne j =
      elim (Option-cases (state_of dec u id rows)) [
        | inl a ↦
            rw (mark_broadcast_state, a)
              (state_of-append_other v j rows _
                (λ e. ne (ground (arith, with_column_user column now (no_state dec u id)))))
        | inr (row, h) ↦
            rw (mark_broadcast_state, h)
              (state_of-map_same v j _ rows (λ r. ground (arith, with_column_user column now r))
                (λ r e. ground (arith, e, ne)))
      ]

  insert_states_other :
      (new : ℕ → NotificationReadState User) (u v : User) (ids : List ℕ)
      (rows : List (NotificationReadState User))
      → ((id : ℕ) → (new id).user_id ≡ u)
      → u ≢ v
      → (j : ℕ) → state_of dec v j (insert_states dec new u ids rows).1 ≡ state_of dec v j rows
  unfolding insert_states
  insert_states_other new u v [] rows owned ne j = refl
  insert_states_other new u v (id ∷ ids) rows owned ne j =
      elim (Option-cases (state_of dec u id rows)) [
        | inl a ↦
            rw (insert_states, a)
              (insert_states_other new u v ids (rows ++ new id ∷ []) owned ne j
                ∙ state_of-append_other v j rows (new id) (λ e. ne (ground (arith, owned id, e))))
        | inr (row, h) ↦ rw (insert_states, h) (insert_states_other new u v ids rows owned ne j)
      ]

  -- Nor does the upsert of many.
  pub upsert_states_other :
      (is_open : NotificationReadState User → Bool)
      (set : NotificationReadState User → NotificationReadState User) (u v : User) (ids : List ℕ)
      (rows : List (NotificationReadState User))
      → ((r : NotificationReadState User) → (set r).user_id ≡ r.user_id)
      → u ≢ v
      → (j : ℕ)
      → state_of dec v j (upsert_states dec is_open set u ids rows) ≡ state_of dec v j rows
  unfolding upsert_states
  upsert_states_other is_open set u v ids rows same ne j =
      let inserted =
        insert_states_other (λ id. set (no_state dec u id)) u v ids rows
          (λ id. same (no_state dec u id)) ne j in
      elim (Bool-cases
        (ltb (insert_states dec (λ id. set (no_state dec u id)) u ids rows).0 (length ids))) [
          | inl b ↦
              rw (upsert_states, b)
                (state_of-map_same v j _
                    (insert_states dec (λ id. set (no_state dec u id)) u ids rows).1
                    (λ r. ground (arith, same r)) (λ r e. ground (arith, e, ne))
                  ∙ inserted)
          | inr b ↦ rw (upsert_states, b) inserted
        ]
