-- ===== src/Retention/Rollup/Pages.antt =====
-- The loop over the pages stores all the groups.
use metroflow_ai_backend.Common.{
  length-take, length-drop, drop-drop, no_items, take_all, ℕ, zero, suc, ◌+◌, ◌≤◌, ◌<◌, ◌≡◌, refl,
  ap, sym, ◌∙◌, true, false, Option, some, List, [], ◌∷◌, length, take, drop, page, ltb, ◌==◌,
  Bool-cases, inl, inr, arith, ℕ_discrete,
}
use metroflow_ai_backend.Retention.Rollup.{
  HourKey, Aggregate, HourlyTable, upsert_hourly_batch, rollup_pages,
}

upsert_hourly_batch-take :
    (n : ℕ) (groups : List (HourKey × Option Aggregate)) (table : HourlyTable)
    → upsert_hourly_batch (drop n groups) (upsert_hourly_batch (take n groups) table)
      ≡ upsert_hourly_batch groups table
upsert_hourly_batch-take zero groups table = refl
upsert_hourly_batch-take (suc n) [] table = refl
upsert_hourly_batch-take (suc n) (g ∷ groups) table = upsert_hourly_batch-take n groups _

-- A round that is not the last one.
full_page :
    (m fuel count offset : ℕ) (groups : List (HourKey × Option Aggregate)) (table : HourlyTable)
    → suc m ≤ length (drop offset groups)
    → rollup_pages (suc m) (suc fuel) count offset groups table
      ≡ rollup_pages
          (suc m)
          fuel
          (count + suc m)
          (offset + suc m)
          groups
          (upsert_hourly_batch (page (suc m) offset groups) table)
unfolding rollup_pages
full_page m fuel count offset groups table le =
    let size = length-take (suc m) (drop offset groups) in
    let rows = page (suc m) offset groups in
    let some_rows : (length rows == 0) ≡ false = ground (arith, size, le) in
    let full : ltb (length rows) (suc m) ≡ false = ground (arith, size, le) in
    let counted : count + length rows ≡ count + suc m = ground (arith, size, le) in
    rw (some_rows, full)
      (ap
        (λ n. rollup_pages (suc m) fuel n (offset + suc m) groups (upsert_hourly_batch rows table))
        counted)

-- The last round.
short_page :
    (m fuel count offset : ℕ) (groups : List (HourKey × Option Aggregate)) (table : HourlyTable)
    → length (drop offset groups) < suc m
    → rollup_pages (suc m) (suc fuel) count offset groups table
      ≡ some (count + length (drop offset groups), upsert_hourly_batch (drop offset groups) table)
unfolding rollup_pages
short_page m fuel count offset groups table lt =
    let left = drop offset groups in
    elim (ℕ_discrete (length left) 0) [
      | yes z ↦ rw (no_items left z) (ap (λ n. some (n, table)) (omega arith))
      | no nz ↦
          let all = take_all (suc m) left (omega (arith, lt)) in
          let some_rows : (length left == 0) ≡ false = ground (arith, nz) in
          let short : ltb (length left) (suc m) ≡ true = ground (arith, lt) in
          rw (all, some_rows, short) refl
    ]

-- The pages together are all the groups.
pub rollup_pages_lem :
    (m fuel count offset : ℕ) (groups : List (HourKey × Option Aggregate)) (table : HourlyTable)
    → length (drop offset groups) < fuel
    → rollup_pages (suc m) fuel count offset groups table
      ≡ some (count + length (drop offset groups), upsert_hourly_batch (drop offset groups) table)
rollup_pages_lem m zero count offset groups table lt = absurd (omega (arith, lt))
rollup_pages_lem m (suc fuel) count offset groups table lt =
    let left = drop offset groups in
    elim (Bool-cases (ltb (length left) (suc m))) [
      | inl b ↦ short_page m fuel count offset groups table (ground (arith, b))
      | inr b ↦
          let later = drop-drop offset (suc m) groups in
          let fewer = ap length (sym later) ∙ length-drop (suc m) left in
          let counted : count + suc m + length (drop (offset + suc m) groups)
              ≡ count + length left =
            ground (arith, fewer, b) in
          let stored =
            ap
              (λ rows.
                upsert_hourly_batch rows (upsert_hourly_batch (page (suc m) offset groups) table))
              (sym later)
            ∙ upsert_hourly_batch-take (suc m) left table in
          full_page m fuel count offset groups table (ground (arith, b))
          ∙ rollup_pages_lem m fuel (count + suc m) (offset + suc m) groups _
              (ground (arith, fewer, lt, b))
          ∙ (λ i. some (counted i, stored i))
    ]
