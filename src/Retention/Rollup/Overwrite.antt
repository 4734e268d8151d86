-- ===== src/Retention/Rollup/Overwrite.antt =====
-- What a pass makes of an hour: the aggregate of the logs that it still finds, in place of the old row.
use metroflow_ai_backend.Common.{
  ℕ, suc, ◌-◌, ◌*◌, ◌≡◌, refl, ap, sym, ◌∙◌, true, Option, none, some, List, [], ◌∷◌, map, length,
  put_in_order, order_by, select, if◌then◌else◌, ite, is_some, Bool-cases, Option-cases, inl, inr,
  or_else, arith,
}
use metroflow_ai_backend.Trains.Tracking.Routes.{AreDistinct}
use metroflow_ai_backend.Retention.Batch.{ids_of}
use metroflow_ai_backend.Retention.Batch.Exact.{others, batched_delete_lem}
use metroflow_ai_backend.Retention.Rollup.Pages.{rollup_pages_lem}
use metroflow_ai_backend.Retention.Rollup.{
  CrowdLog, HourKey, HourKey-discrete, Aggregate, CrowdLogHourly, HourlyTable, day, key_of,
  is_older, older, is_of, aggregate_of, has_key, keys_of, key_precedes, groups_of, upsert,
  upsert_hourly_batch, Settings, Tables, rollup_and_delete,
}

-- The row of an hour.
abbrev pub hour_row : HourKey → List (ℕ × CrowdLogHourly) → Option Aggregate
hour_row key [] = none
hour_row key (e ∷ rows) =
    ite (HourKey-discrete e.1.key key) (some e.1.aggregate) (hour_row key rows)

hour_row-upsert :
    (key : HourKey) (id : ℕ) (row : CrowdLogHourly) (rows : List (ℕ × CrowdLogHourly))
    → hour_row key (upsert id row rows)
      ≡ ite (HourKey-discrete row.key key) (some row.aggregate) (hour_row key rows)
hour_row-upsert key id row [] = refl
hour_row-upsert key id row (e ∷ rows) = elim (HourKey-discrete e.1.key row.key) [
  | yes same ↦ elim (HourKey-discrete row.key key) [
    | yes q ↦ ground (arith, same, q, same ∙ q)
    | no ne ↦ ground (arith, same, ne, λ (q : e.1.key ≡ key). ne (sym same ∙ q))
  ]
  | no differs ↦ elim (HourKey-discrete row.key key) [
    | yes q ↦ ground (
      arith,
      differs,
      q,
      hour_row-upsert key id row rows,
      λ (p : e.1.key ≡ key). differs (p ∙ sym q),
    )
    | no ne ↦ ground (arith, differs, ne, hour_row-upsert key id row rows)
  ]
]

-- The groups of keys, in any order, are all stored.
hour_row-upsert_hourly_batch :
    (key : HourKey) (f : HourKey → Option Aggregate) (keys : List HourKey) (table : HourlyTable)
    → hour_row key (upsert_hourly_batch (map (λ k. (k, f k)) keys) table).rows ≡ (
        if has_key key keys
        then or_else (f key) (hour_row key table.rows)
        else hour_row key table.rows)
hour_row-upsert_hourly_batch key f [] table = refl
hour_row-upsert_hourly_batch key f (k ∷ keys) table = elim (Option-cases (f k)) [
  | inl missing ↦
      let rest = hour_row-upsert_hourly_batch key f keys table in
      elim (HourKey-discrete k key) [
        | yes q ↦
            let absent : f key ≡ none = ap f (sym q) ∙ missing in
            rw missing (ground (arith, q, absent, rest))
        | no ne ↦ rw missing (ground (arith, ne, rest))
      ]
  | inr (a, found) ↦
      let row : CrowdLogHourly = record { key = k; aggregate = a } in
      let stored : HourlyTable = record {
        rows = upsert table.next_id row table.rows;
        next_id = suc table.next_id;
      } in
      let rest = hour_row-upsert_hourly_batch key f keys stored in
      let step = hour_row-upsert key table.next_id row table.rows in
      elim (HourKey-discrete k key) [
        | yes q ↦
            let present : f key ≡ some a = ap f (sym q) ∙ found in
            rw found (ground (arith, q, present, rest, step))
        | no ne ↦ rw found (ground (arith, ne, rest, step))
      ]
]

has_key-put_in_order :
    (key k : HourKey) (keys : List HourKey)
    → has_key key (put_in_order key_precedes k keys) ≡ has_key key (k ∷ keys)
has_key-put_in_order key k [] = refl
has_key-put_in_order key k (j ∷ keys) = elim (Bool-cases (key_precedes j k)) [
  | inl b ↦
      rw b (ap (λ b. ite (HourKey-discrete j key) true b) (has_key-put_in_order key k keys) ∙ swap)
  | inr b ↦ rw b refl
]
  where
    swap :
        ite (HourKey-discrete j key) true (ite (HourKey-discrete k key) true (has_key key keys))
        ≡ ite (HourKey-discrete k key) true (ite (HourKey-discrete j key) true (has_key key keys))
    swap = ground arith

has_key-order_by :
    (key : HourKey) (keys : List HourKey)
    → has_key key (order_by key_precedes keys) ≡ has_key key keys
has_key-order_by key [] = refl
has_key-order_by key (k ∷ keys) =
    has_key-put_in_order key k (order_by key_precedes keys)
    ∙ ap (λ b. ite (HourKey-discrete k key) true b) (has_key-order_by key keys)

-- An hour is among the keys exactly if it has a log.
has_key-keys_of :
    (key : HourKey) (logs : List (ℕ × CrowdLog))
    → has_key key (keys_of logs) ≡ is_some (aggregate_of (select (is_of key) logs))
has_key-keys_of key [] = refl
has_key-keys_of key (e ∷ logs) = elim (HourKey-discrete (key_of e.1) key) [
  | yes q ↦ elim (Bool-cases (has_key (key_of e.1) (keys_of logs))) [
    | inl b ↦ ground (arith, q, b, ap (λ k. has_key k (keys_of logs)) (sym q) ∙ b)
    | inr b ↦ ground (arith, q, b)
  ]
  | no ne ↦ elim (Bool-cases (has_key (key_of e.1) (keys_of logs))) [
    | inl b ↦ ground (arith, ne, b, has_key-keys_of key logs)
    | inr b ↦ ground (arith, ne, b, has_key-keys_of key logs)
  ]
]

-- An hour's row after the groups of some logs are stored.
hour_row-groups :
    (key : HourKey) (logs : List (ℕ × CrowdLog)) (table : HourlyTable)
    → hour_row key (upsert_hourly_batch (groups_of logs) table).rows
      ≡ or_else (aggregate_of (select (is_of key) logs)) (hour_row key table.rows)
hour_row-groups key logs table =
    let keys = order_by key_precedes (keys_of logs) in
    let stored =
      hour_row-upsert_hourly_batch key (λ k. aggregate_of (select (is_of k) logs)) keys table in
    let known = has_key-order_by key (keys_of logs) ∙ has_key-keys_of key logs in
    elim (Option-cases (aggregate_of (select (is_of key) logs))) [
      | inl e ↦ ground (arith, stored, known, e)
      | inr (a, e) ↦ ground (arith, stored, known, e)
    ]

-- A pass ends: it deletes exactly the logs older than the cutoff, and the row of every hour that has
-- such logs is the aggregate of these alone, whatever the row was before; the other rows stay. The
-- ids of the logs are distinct, and the batches are not empty.
pub rollup_and_delete_lem :
    (settings : Settings) (m n now : ℕ) (tables : Tables) (key : HourKey)
    → AreDistinct (ids_of tables.crowd_logs)
    → settings.retention_batch_size ≡ suc m
    → settings.crowd_rollup_batch_size ≡ suc n
    → let cutoff : ℕ = now - settings.crowd_log_rollup_after_days * day in
      let old : List (ℕ × CrowdLog) = older cutoff tables.crowd_logs in
      (after : Tables) × (rollup_and_delete settings now tables
        ≡ some (length (groups_of old), length old, after))
      × (after.crowd_logs ≡ others (is_older cutoff) tables.crowd_logs)
      × (hour_row key after.hourly.rows
          ≡ or_else (aggregate_of (select (is_of key) old)) (hour_row key tables.hourly.rows))
unfolding rollup_and_delete
rollup_and_delete_lem settings m n now tables key h retention rollup =
    let cutoff = now - settings.crowd_log_rollup_after_days * day in
    let old = older cutoff tables.crowd_logs in
    let groups = groups_of old in
    let rolled = rollup_pages_lem n (suc (length groups)) 0 0 groups tables.hourly (omega arith) in
    let deleted = batched_delete_lem (is_older cutoff) m tables.crowd_logs h in
    let after : Tables = record tables {
      crowd_logs = others (is_older cutoff) tables.crowd_logs;
      hourly = upsert_hourly_batch groups tables.hourly;
    } in
    (
      after,
      rw (rollup_and_delete, rollup, retention, rolled, deleted)
          (ap (λ k. some (k, length old, after)) (omega arith)),
      refl,
      hour_row-groups key old tables.hourly,
    )
