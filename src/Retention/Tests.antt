-- ===== src/Retention/Tests.antt =====
-- Runs of the retention at concrete inputs.
use metroflow_ai_backend.Common.{
  ℕ, ◌+◌, ◌*◌, ◌≡◌, refl, Option, some, List, [], ◌∷◌, ℕ_discrete, ltb, ◌>>=◌,
}
use metroflow_ai_backend.Retention.Batch.Exact
use metroflow_ai_backend.Retention.Batch.{delete_batches, batched_delete}
use metroflow_ai_backend.Retention.Rollup.{
  HourKey, HourKey-discrete, day, Settings, Tables, rollup_pages, rollup_and_delete,
  run_retention_once,
}
use metroflow_ai_backend.Retention.Rollup.Overwrite
use metroflow_ai_backend.Retention.Rollup.Overwrite.{hour_row}

program : Unit {0}
unfolding delete_batches batched_delete rollup_pages rollup_and_delete run_retention_once
    HourKey-discrete ℕ_discrete
program = tt

abbrev ages : List (ℕ × ℕ)
ages = (1, 5) ∷ (2, 9) ∷ (3, 4) ∷ (4, 1) ∷ []

batched_delete_lem_example : batched_delete (λ age. ltb age 6) 2 ages ≡ some (3, (2, 9) ∷ [])
unfolding program
batched_delete_lem_example =
    Exact.batched_delete_lem (λ age. ltb age 6) 1 ages (refl, (refl, (refl, (refl, tt))))

abbrev minute : ℕ
minute = 60 * 1000

-- Two logs of one hour.
abbrev tables : Tables
tables = record {
  crowd_logs =
      (1, record { station_id = 7; current_count = 10; created_at = 10 * minute })
      ∷ (2, record { station_id = 7; current_count = 50; created_at = 50 * minute })
      ∷ [];
  hourly = record { rows = []; next_id = 1 };
  feed_events = [];
}

abbrev settings : Settings
settings = record {
  crowd_log_rollup_after_days = 2;
  crowd_log_retention_days = 30;
  crowd_log_hourly_retention_days = 400;
  sensor_feed_event_retention_days = 30;
  retention_batch_size = 5000;
  crowd_rollup_batch_size = 1000;
}

abbrev first_hour : HourKey
first_hour = record { station = 7; hour_bucket = 0 }

-- A pass in the middle of the hour, and the next one an hour later: the first log is lost.
abbrev twice : Option (ℕ × ℕ × Tables)
twice = rollup_and_delete settings (2 * day + 30 * minute) tables >>= λ once.
    rollup_and_delete settings (2 * day + 90 * minute) once.2

hour_of_twice :
    twice >>= (λ after. hour_row first_hour after.2.hourly.rows)
    ≡ some (record { sum_count = 50; max_count = 50; min_count = 50; sample_count = 1 })
unfolding program
hour_of_twice = refl

rollup_and_delete_lem_example :
    (after : Tables) × (rollup_and_delete settings (2 * day + 90 * minute) tables
      ≡ some (1, 2, after))
    × (after.crowd_logs ≡ [])
    × (hour_row first_hour after.hourly.rows
        ≡ some (record { sum_count = 60; max_count = 50; min_count = 10; sample_count = 2 }))
unfolding program
rollup_and_delete_lem_example =
    Overwrite.rollup_and_delete_lem settings 4999 999 (2 * day + 90 * minute) tables first_hour
      (refl, (refl, tt)) refl refl
