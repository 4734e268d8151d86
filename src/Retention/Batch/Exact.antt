-- ===== src/Retention/Batch/Exact.antt =====
-- The deletes end, with exactly the rows of the filter deleted.
use metroflow_ai_backend.Common.{
  ℕ, zero, suc, ◌+◌, ◌-◌, ◌≤◌, ◌<◌, min, ◌≡◌, refl, ap, ◌∙◌, Bool, true, false, not, some, List, [],
  ◌∷◌, length, take, select, select_all, length-select-le, ltb, ◌==◌, if◌then◌else◌, Bool-cases,
  inl, inr, arith, ℕ_discrete,
}
use metroflow_ai_backend.Trains.Tracking.{contains}
use metroflow_ai_backend.Trains.Tracking.Routes.{AreDistinct}
use metroflow_ai_backend.Retention.Batch.{ids_of, delete_ids, delete_batches, batched_delete}

module _ {Row : Type 0} where
  -- The table without the first rows that pass a test.
  abbrev drop_matching : ℕ → (Row → Bool) → List (ℕ × Row) → List (ℕ × Row)
  drop_matching zero p rows = rows
  drop_matching (suc n) p [] = []
  drop_matching (suc n) p (e ∷ rows) =
      let dropped = drop_matching n p rows in
      let kept = drop_matching (suc n) p rows in if p e.1 then dropped else e ∷ kept

  abbrev matching : (Row → Bool) → List (ℕ × Row) → List (ℕ × Row)
  matching p rows = select (λ e. p e.1) rows

  abbrev pub others : (Row → Bool) → List (ℕ × Row) → List (ℕ × Row)
  others p rows = select (λ e. not (p e.1)) rows

  delete_absent :
      (x : ℕ) (ids : List ℕ) (rows : List (ℕ × Row))
      → contains x (ids_of rows) ≡ false
      → delete_ids (x ∷ ids) rows ≡ delete_ids ids rows
  delete_absent x ids [] h = refl
  delete_absent x ids (e ∷ rows) h = elim (ℕ_discrete e.0 x) [
    | yes q ↦ absurd (ground (arith, q, h))
    | no ne ↦ ground (arith, ne, h, delete_absent x ids rows (ground (arith, h, ne)))
  ]

  absent_of_batch :
      (x n : ℕ) (p : Row → Bool) (rows : List (ℕ × Row))
      → contains x (ids_of rows) ≡ false
      → contains x (ids_of (take n (matching p rows))) ≡ false
  absent_of_batch x zero p rows h = refl
  absent_of_batch x (suc n) p [] h = refl
  absent_of_batch x (suc n) p (e ∷ rows) h = elim (ℕ_discrete e.0 x) [
    | yes q ↦ absurd (ground (arith, q, h))
    | no ne ↦
        let rest : contains x (ids_of rows) ≡ false = ground (arith, h, ne) in
        ground (arith, ne, absent_of_batch x n p rows rest, absent_of_batch x (suc n) p rows rest)
  ]

  absent_of_dropped :
      (x n : ℕ) (p : Row → Bool) (rows : List (ℕ × Row))
      → contains x (ids_of rows) ≡ false
      → contains x (ids_of (drop_matching n p rows)) ≡ false
  absent_of_dropped x zero p rows h = h
  absent_of_dropped x (suc n) p [] h = refl
  absent_of_dropped x (suc n) p (e ∷ rows) h = elim (ℕ_discrete e.0 x) [
    | yes q ↦ absurd (ground (arith, q, h))
    | no ne ↦
        let rest : contains x (ids_of rows) ≡ false = ground (arith, h, ne) in
        ground
          (arith, ne, absent_of_dropped x n p rows rest, absent_of_dropped x (suc n) p rows rest)
  ]

  drop_matching-AreDistinct :
      (n : ℕ) (p : Row → Bool) (rows : List (ℕ × Row))
      → AreDistinct (ids_of rows)
      → AreDistinct (ids_of (drop_matching n p rows))
  drop_matching-AreDistinct zero p rows h = h
  drop_matching-AreDistinct (suc n) p [] h = tt
  drop_matching-AreDistinct (suc n) p (e ∷ rows) h = elim (Bool-cases (p e.1)) [
    | inl b ↦ rw b (drop_matching-AreDistinct n p rows h.1)
    | inr b ↦
        rw b
          (absent_of_dropped e.0 (suc n) p rows h.0, drop_matching-AreDistinct (suc n) p rows h.1)
  ]

  -- The ids of a batch are those of the first rows that pass the test.
  delete_batch :
      (n : ℕ) (p : Row → Bool) (rows : List (ℕ × Row))
      → AreDistinct (ids_of rows)
      → delete_ids (ids_of (take n (matching p rows))) rows ≡ drop_matching n p rows
  delete_batch zero p rows h = select_all rows
  delete_batch (suc n) p [] h = refl
  delete_batch (suc n) p (e ∷ rows) h = elim (Bool-cases (p e.1)) [
    | inl b ↦
        let ids = ids_of (take n (matching p rows)) in
        let first : matching p (e ∷ rows) ≡ e ∷ matching p rows = rw b refl in
        let found : contains e.0 (e.0 ∷ ids) ≡ true = ground arith in
        let kept : delete_ids (e.0 ∷ ids) (e ∷ rows) ≡ drop_matching (suc n) p (e ∷ rows) =
          rw (b, found) (delete_absent e.0 ids rows h.0 ∙ delete_batch n p rows h.1) in
        ap (λ batch. delete_ids (ids_of (take (suc n) batch)) (e ∷ rows)) first ∙ kept
    | inr b ↦
        let batch = take (suc n) (matching p rows) in
        let rest : matching p (e ∷ rows) ≡ matching p rows = rw b refl in
        let kept : delete_ids (ids_of batch) (e ∷ rows) ≡ drop_matching (suc n) p (e ∷ rows) =
          rw (b, absent_of_batch e.0 (suc n) p rows h.0)
            (ap (λ left. e ∷ left) (delete_batch (suc n) p rows h.1)) in
        ap (λ batch. delete_ids (ids_of (take (suc n) batch)) (e ∷ rows)) rest ∙ kept
  ]

  length-drop_matching :
      (n : ℕ) (p : Row → Bool) (rows : List (ℕ × Row))
      → (length (drop_matching n p rows) + min n (length (matching p rows)) ≡ length rows)
        × (length (matching p (drop_matching n p rows)) ≡ length (matching p rows) - n)
        × (others p (drop_matching n p rows) ≡ others p rows)
  length-drop_matching zero p rows = (omega arith, omega arith, refl)
  length-drop_matching (suc n) p [] = (omega arith, omega arith, refl)
  length-drop_matching (suc n) p (e ∷ rows) = elim (Bool-cases (p e.1)) [
    | inl b ↦
        let (a, m, o) = length-drop_matching n p rows in
        (ground (arith, b, a), ground (arith, b, m), ground (arith, b, o))
    | inr b ↦
        let (a, m, o) = length-drop_matching (suc n) p rows in
        (ground (arith, b, a), ground (arith, b, m), ground (arith, b, o))
  ]

  drop_matching_all :
      (n : ℕ) (p : Row → Bool) (rows : List (ℕ × Row))
      → length (matching p rows) ≤ n
      → drop_matching n p rows ≡ others p rows
  drop_matching_all zero p [] h = refl
  drop_matching_all zero p (e ∷ rows) h = ground (arith, h, drop_matching_all zero p rows)
  drop_matching_all (suc n) p [] h = refl
  drop_matching_all (suc n) p (e ∷ rows) h = elim (Bool-cases (p e.1)) [
    | inl b ↦ rw b (drop_matching_all n p rows (ground (arith, h, b)))
    | inr b ↦ ground (arith, b, drop_matching_all (suc n) p rows (ground (arith, h, b)))
  ]

  length-ids_of :
      (n : ℕ) (rows : List (ℕ × Row)) → length (ids_of (take n rows)) ≡ min n (length rows)
  length-ids_of zero rows = omega arith
  length-ids_of (suc n) [] = omega arith
  length-ids_of (suc n) (e ∷ rows) = omega (arith, length-ids_of n rows)

  -- The number of rows that a batch leaves.
  batch_count :
      (p : Row → Bool) (m total : ℕ) (rows : List (ℕ × Row))
      → total + (length rows - length (drop_matching (suc m) p rows))
        ≡ total + min (suc m) (length (matching p rows))
  batch_count p m total rows = omega (arith, (length-drop_matching (suc m) p rows).0)

  -- The last round: fewer rows pass than a batch has.
  short_batch :
      (p : Row → Bool) (m fuel total : ℕ) (rows : List (ℕ × Row))
      → AreDistinct (ids_of rows)
      → length (matching p rows) < suc m
      → delete_batches p (suc m) (suc fuel) total rows
        ≡ some (total + length (matching p rows), others p rows)
  unfolding delete_batches
  short_batch p m fuel total rows h lt =
      let size = length-ids_of (suc m) (matching p rows) in
      let batch = ids_of (take (suc m) (matching p rows)) in
      elim (ℕ_discrete (length (matching p rows)) 0) [
        | yes z ↦
            let none_left : (length batch == 0) ≡ true = ground (arith, size, z) in
            let counted : total ≡ total + length (matching p rows) = omega (arith, z) in
            rw none_left (λ i. some (counted i, drop_matching_all 0 p rows (omega (arith, z)) i))
        | no nz ↦
            let some_left : (length batch == 0) ≡ false = ground (arith, size, nz) in
            let short : ltb (length batch) (suc m) ≡ true = ground (arith, size, lt) in
            let counted : total + (length rows - length (drop_matching (suc m) p rows))
                ≡ total + length (matching p rows) =
              omega (arith, batch_count p m total rows, lt) in
            let all = drop_matching_all (suc m) p rows (omega (arith, lt)) in
            rw (some_left, short, delete_batch (suc m) p rows h) (λ i. some (counted i, all i))
      ]

  -- A round that is not the last one.
  full_batch :
      (p : Row → Bool) (m fuel total : ℕ) (rows : List (ℕ × Row))
      → AreDistinct (ids_of rows)
      → suc m ≤ length (matching p rows)
      → delete_batches p (suc m) (suc fuel) total rows
        ≡ delete_batches p (suc m) fuel (total + suc m) (drop_matching (suc m) p rows)
  unfolding delete_batches
  full_batch p m fuel total rows h le =
      let size = length-ids_of (suc m) (matching p rows) in
      let batch = ids_of (take (suc m) (matching p rows)) in
      let some_left : (length batch == 0) ≡ false = ground (arith, size, le) in
      let full : ltb (length batch) (suc m) ≡ false = ground (arith, size, le) in
      let counted : total + (length rows - length (drop_matching (suc m) p rows)) ≡ total + suc m =
        omega (arith, batch_count p m total rows, le) in
      rw (some_left, full, delete_batch (suc m) p rows h)
        (ap (λ n. delete_batches p (suc m) fuel n (drop_matching (suc m) p rows)) counted)

  delete_batches_lem :
      (p : Row → Bool) (m fuel total : ℕ) (rows : List (ℕ × Row))
      → AreDistinct (ids_of rows)
      → length (matching p rows) < fuel
      → delete_batches p (suc m) fuel total rows
        ≡ some (total + length (matching p rows), others p rows)
  delete_batches_lem p m zero total rows h lt = absurd (omega (arith, lt))
  delete_batches_lem p m (suc fuel) total rows h lt =
      elim (Bool-cases (ltb (length (matching p rows)) (suc m))) [
        | inl b ↦ short_batch p m fuel total rows h (ground (arith, b))
        | inr b ↦
            let after = drop_matching (suc m) p rows in
            let (a, l, o) = length-drop_matching (suc m) p rows in
            let counted : total + suc m + length (matching p after)
                ≡ total + length (matching p rows) =
              ground (arith, l, b) in
            full_batch p m fuel total rows h (ground (arith, b))
            ∙ delete_batches_lem p m fuel (total + suc m) after
                (drop_matching-AreDistinct (suc m) p rows h) (ground (arith, l, lt, b))
            ∙ (λ i. some (counted i, o i))
      ]

  -- `batched_delete` ends where a batch has at least one row: it deletes exactly the rows that pass
  -- the filter, however large a batch is, and returns their number. The ids of the table are distinct.
  pub batched_delete_lem :
      (p : Row → Bool) (m : ℕ) (rows : List (ℕ × Row))
      → AreDistinct (ids_of rows)
      → batched_delete p (suc m) rows
        ≡ some (length (select (λ e. p e.1) rows), select (λ e. not (p e.1)) rows)
  unfolding batched_delete
  batched_delete_lem p m rows h =
      delete_batches_lem p m (suc (length rows)) 0 rows h
        (omega (arith, length-select-le (λ e. p e.1) rows))
      ∙ ap (λ n. some (n, others p rows)) (omega arith)
