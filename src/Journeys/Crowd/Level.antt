-- ===== src/Journeys/Crowd/Level.antt =====
-- Crowd levels and counts.
use metroflow_ai_backend.Common.{ℕ, ◌≤◌, arith}
use metroflow_ai_backend.Journeys.Crowd.{CrowdLevel, low, moderate, high, critical, level_of}

abbrev pub rank : CrowdLevel → ℕ
rank low = 0
rank moderate = 1
rank high = 2
rank critical = 3

-- More people at a station never count as a lower level of crowding.
pub level_of_mono :
    (count count' capacity : ℕ)
    → count ≤ count'
    → rank (level_of count capacity) ≤ rank (level_of count' capacity)
level_of_mono count count' capacity h = ground arith
