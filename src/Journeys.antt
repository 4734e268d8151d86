-- ===== src/Journeys.antt =====
-- Journeys and the crowd at the stations: app/services/journey_service.py, the live state of
-- app/services/crowd_service.py, and app/enums/crowd_level.py.
pub mod Crowd
pub mod Journey
mod Tests
