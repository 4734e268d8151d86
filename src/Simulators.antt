-- ===== src/Simulators.antt =====
-- The simulators: app/simulator/csv_replay_simulator.py.
pub mod Replay
mod Tests
