-- ===== src/Retention/Rollup.antt =====
-- app/simulator/retention.py: crowd logs are folded into hours and deleted. An average is a sum and
-- the number of its terms; a pass reads the clock once.
pub mod Pages
pub mod Overwrite
use metroflow_ai_backend.Common.{
  ℕ, zero, suc, ◌+◌, ◌-◌, ◌*◌, ◌/◌, min, max, Bool, true, false, ◌||◌, ◌&&◌, not, Option, none,
  some, List, [], ◌∷◌, map, length, page, select, ◌>>=◌, order_by, ltb, ◌==◌, if◌then◌else◌, ite,
  ℕ_discrete,
}
use metroflow_ai_backend.Retention.Batch.{batched_delete}

-- A row of `crowd_logs`, but for its id and its level.
pub record CrowdLog : Type 0 where
  pub station_id : ℕ
  pub current_count : ℕ
  pub created_at : ℕ

-- The two columns of the unique constraint of `crowd_logs_hourly`; hours are counted.
pub record HourKey : Type 0 where
  pub station : ℕ
  pub hour_bucket : ℕ

unfoldable pub HourKey-discrete : Discrete HourKey
HourKey-discrete = hlevel (ℕ_discrete)

-- The four columns that the aggregation gives; the average is the sum by the number of samples.
pub record Aggregate : Type 0 where
  pub sum_count : ℕ
  pub max_count : ℕ
  pub min_count : ℕ
  pub sample_count : ℕ

-- A row of `crowd_logs_hourly`, but for its id.
pub record CrowdLogHourly : Type 0 where
  pub key : HourKey
  pub aggregate : Aggregate

-- The table, and the next id.
pub record HourlyTable : Type 0 where
  pub rows : List (ℕ × CrowdLogHourly)
  pub next_id : ℕ

abbrev pub hour : ℕ
hour = 3600 * 1000

abbrev pub day : ℕ
day = 24 * hour

-- `GROUP BY station_id, date_trunc('hour', created_at)`
abbrev pub key_of : CrowdLog → HourKey
key_of log = record { station = log.station_id; hour_bucket = log.created_at / hour }

abbrev pub is_older : ℕ → CrowdLog → Bool
is_older cutoff log = ltb log.created_at cutoff

abbrev pub older : ℕ → List (ℕ × CrowdLog) → List (ℕ × CrowdLog)
older cutoff logs = select (λ e. is_older cutoff e.1) logs

abbrev pub is_of : HourKey → ℕ × CrowdLog → Bool
is_of key e = ite (HourKey-discrete (key_of e.1) key) true false

-- The aggregation of one more row, and of rows.
abbrev pub with_sample : CrowdLog → Option Aggregate → Aggregate
with_sample log none = record {
  sum_count = log.current_count;
  max_count = log.current_count;
  min_count = log.current_count;
  sample_count = 1;
}
with_sample log (some a) = record {
  sum_count = log.current_count + a.sum_count;
  max_count = max log.current_count a.max_count;
  min_count = min log.current_count a.min_count;
  sample_count = suc a.sample_count;
}

abbrev pub aggregate_of : List (ℕ × CrowdLog) → Option Aggregate
aggregate_of [] = none
aggregate_of (e ∷ logs) = some (with_sample e.1 (aggregate_of logs))

abbrev pub has_key : HourKey → List HourKey → Bool
has_key key [] = false
has_key key (k ∷ keys) = ite (HourKey-discrete k key) true (has_key key keys)

abbrev pub keys_of : List (ℕ × CrowdLog) → List HourKey
keys_of [] = []
keys_of (e ∷ logs) =
    let rest = keys_of logs in if has_key (key_of e.1) rest then rest else key_of e.1 ∷ rest

-- `ORDER BY station_id, hour_bucket`
abbrev pub key_precedes : HourKey → HourKey → Bool
key_precedes k j =
    ltb k.station j.station || ((k.station == j.station) && ltb k.hour_bucket j.hour_bucket)

abbrev pub group_of : List (ℕ × CrowdLog) → HourKey → HourKey × Option Aggregate
group_of logs key = (key, aggregate_of (select (is_of key) logs))

-- The rows of `base_query`.
abbrev pub groups_of : List (ℕ × CrowdLog) → List (HourKey × Option Aggregate)
groups_of logs = map (group_of logs) (order_by key_precedes (keys_of logs))

-- `INSERT … ON CONFLICT (station_id, hour_bucket) DO UPDATE`
abbrev pub upsert : ℕ → CrowdLogHourly → List (ℕ × CrowdLogHourly) → List (ℕ × CrowdLogHourly)
upsert id row [] = (id, row) ∷ []
upsert id row (e ∷ rows) =
    ite (HourKey-discrete e.1.key row.key)
      ((e.0, record (e.1) { aggregate = row.aggregate }) ∷ rows) (e ∷ upsert id row rows)

-- `_upsert_hourly_batch`; a group always has a row.
abbrev pub upsert_hourly_batch : List (HourKey × Option Aggregate) → HourlyTable → HourlyTable
upsert_hourly_batch [] table = table
upsert_hourly_batch (g ∷ groups) table = upsert_hourly_batch groups (elim g.1 [
  | none ↦ table
  | some a ↦ record {
    rows = upsert table.next_id (record { key = g.0; aggregate = a }) table.rows;
    next_id = suc table.next_id;
  }
])

-- The loop over the pages of `base_query`, and the number of buckets.
unfoldable pub rollup_pages :
    ℕ → ℕ → ℕ → ℕ → List (HourKey × Option Aggregate) → HourlyTable → Option (ℕ × HourlyTable)
rollup_pages batch_size zero rolled_up_buckets offset groups table = none
rollup_pages batch_size (suc fuel) rolled_up_buckets offset groups table =
    let rows = page batch_size offset groups in
    let stored = upsert_hourly_batch rows table in
    let count = rolled_up_buckets + length rows in
    let rest = rollup_pages batch_size fuel count (offset + batch_size) groups stored in
    if length rows == 0
    then some (rolled_up_buckets, table)
    else if ltb (length rows) batch_size
    then some (count, stored)
    else rest

pub record Settings : Type 0 where
  pub crowd_log_rollup_after_days : ℕ
  pub crowd_log_retention_days : ℕ
  pub crowd_log_hourly_retention_days : ℕ
  pub sensor_feed_event_retention_days : ℕ
  pub retention_batch_size : ℕ
  pub crowd_rollup_batch_size : ℕ

-- The tables; of a feed event, its time.
pub record Tables : Type 0 where
  pub crowd_logs : List (ℕ × CrowdLog)
  pub hourly : HourlyTable
  pub feed_events : List (ℕ × ℕ)

-- `_rollup_and_delete`, with one more round than there are groups.
unfoldable pub rollup_and_delete : Settings → ℕ → Tables → Option (ℕ × ℕ × Tables)
rollup_and_delete settings now tables = do
  let cutoff : ℕ = now - settings.crowd_log_rollup_after_days * day
  let groups : List (HourKey × Option Aggregate) = groups_of (older cutoff tables.crowd_logs)
  rolled ←
      rollup_pages settings.crowd_rollup_batch_size (suc (length groups)) 0 0 groups tables.hourly
  deleted ← batched_delete (is_older cutoff) settings.retention_batch_size tables.crowd_logs
  some (rolled.0, deleted.0, record tables { crowd_logs = deleted.1; hourly = rolled.1 })

-- `_hard_delete_stale_raw`
abbrev pub hard_delete_stale_raw : Settings → ℕ → Tables → Option (ℕ × Tables)
hard_delete_stale_raw settings now tables = do
  deleted ←
      batched_delete (is_older (now - settings.crowd_log_retention_days * day))
        settings.retention_batch_size tables.crowd_logs
  some (deleted.0, record tables { crowd_logs = deleted.1 })

-- `_hard_delete_stale_hourly`
abbrev pub hard_delete_stale_hourly : Settings → ℕ → Tables → Option (ℕ × Tables)
hard_delete_stale_hourly settings now tables = do
  deleted ←
      batched_delete
        (λ row.
          ltb (row.key.hour_bucket * hour) (now - settings.crowd_log_hourly_retention_days * day))
        settings.retention_batch_size tables.hourly.rows
  some (deleted.0, record tables { hourly = record (tables.hourly) { rows = deleted.1 } })

-- `_hard_delete_stale_feed_events`
abbrev pub hard_delete_stale_feed_events : Settings → ℕ → Tables → Option (ℕ × Tables)
hard_delete_stale_feed_events settings now tables = do
  deleted ←
      batched_delete
        (λ created_at. ltb created_at (now - settings.sensor_feed_event_retention_days * day))
        settings.retention_batch_size tables.feed_events
  some (deleted.0, record tables { feed_events = deleted.1 })

-- `run_retention_once`, without the peak hours: the numbers of its statistics, and the tables.
unfoldable pub run_retention_once : Settings → ℕ → Tables → Option (List ℕ × Tables)
run_retention_once settings now tables = do
  rolled ← rollup_and_delete settings now tables
  raw ← hard_delete_stale_raw settings now rolled.2
  hourly ← hard_delete_stale_hourly settings now raw.1
  events ← hard_delete_stale_feed_events settings now hourly.1
  some (rolled.0 ∷ rolled.1 ∷ raw.0 ∷ hourly.0 ∷ events.0 ∷ [], events.1)
