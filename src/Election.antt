-- ===== src/Election.antt =====
-- Which process runs a background loop: app/simulator/local_lock.py and
-- app/simulator/leader_election.py.
pub mod LocalLock
pub mod Elector
mod Tests
