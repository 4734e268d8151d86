-- ===== src/Retention/Batch.antt =====
-- app/utils/db_batch.py: rows are deleted by their ids, a batch at a time.
pub mod Exact
use metroflow_ai_backend.Common.{
  ℕ, zero, suc, ◌+◌, ◌-◌, ◌≤◌, ◌<◌, min, ◌≡◌, refl, ap, ◌∙◌, Bool, true, false, not, Option, none,
  some, List, [], ◌∷◌, length, take, select, select_all, length-select-le, ltb, ◌==◌, if◌then◌else◌,
  Bool-cases, inl, inr, arith, ℕ_discrete,
}
use metroflow_ai_backend.Trains.Tracking.{contains}

module _ {Row : Type 0} where
  abbrev pub ids_of : List (ℕ × Row) → List ℕ
  ids_of [] = []
  ids_of (e ∷ rows) = e.0 ∷ ids_of rows

  -- `DELETE … WHERE id IN ids`
  abbrev pub delete_ids : List ℕ → List (ℕ × Row) → List (ℕ × Row)
  delete_ids ids rows = select (λ e. not (contains e.0 ids)) rows

  -- The loop of `batched_delete`: the number of rows that it deleted, and the table.
  unfoldable pub delete_batches :
      (Row → Bool) → ℕ → ℕ → ℕ → List (ℕ × Row) → Option (ℕ × List (ℕ × Row))
  delete_batches filter_clause batch_size zero total rows = none
  delete_batches filter_clause batch_size (suc fuel) total rows =
      let ids = ids_of (take batch_size (select (λ e. filter_clause e.1) rows)) in
      let left = delete_ids ids rows in
      let deleted = total + (length rows - length left) in
      let rest = delete_batches filter_clause batch_size fuel deleted left in
      if length ids == 0
      then some (total, rows)
      else if ltb (length ids) batch_size
      then some (deleted, left)
      else rest

  -- `batched_delete`; every round but the last one deletes a row.
  unfoldable pub batched_delete : (Row → Bool) → ℕ → List (ℕ × Row) → Option (ℕ × List (ℕ × Row))
  unfolding delete_batches
  batched_delete filter_clause batch_size rows =
      delete_batches filter_clause batch_size (suc (length rows)) 0 rows
