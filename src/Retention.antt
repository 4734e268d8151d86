-- ===== src/Retention.antt =====
-- app/utils/db_batch.py, app/simulator/retention.py and app/simulator/notification_bin_retention.py:
-- the passes that fold old crowd logs into hours and delete old rows, batch by batch.
pub mod Batch
pub mod Rollup
mod Tests
