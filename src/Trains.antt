-- ===== src/Trains.antt =====
-- Trains on their routes: app/services/train_tracking.py.
pub mod Tracking
pub mod Simulator
mod Tests
