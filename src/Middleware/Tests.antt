-- ===== src/Middleware/Tests.antt =====
-- Runs of the small core parts at concrete inputs.
use metroflow_ai_backend.Common.{
  ℕ, ◌≡◌, refl, true, none, some, List, [], ◌∷◌, ◌++◌, Bool, ltb, ℕ_discrete, Text, codes,
  Text-discrete,
}
use metroflow_ai_backend.Middleware.RequestLimits
use metroflow_ai_backend.Middleware.RequestLimits.{
  call, payload_too_large, answered, http_request, other_message,
}
use metroflow_ai_backend.Middleware.LogBuffer
use metroflow_ai_backend.Common.Dict.{lookup, insert}
use metroflow_ai_backend.Middleware.LogCounts.{level_count, log_counts}
use metroflow_ai_backend.Middleware.LogBuffer.{get_recent_logs, emit_all}

-- Header 1 is content-length; a body of 30 and 80 bytes against a limit of 100, with no such header.
call_limits_example :
    call ℕ_discrete 1
      (λ n. some n)
      true
      100
      []
      (http_request 30 ∷ other_message ∷ http_request 80 ∷ [])
    ≡ payload_too_large none
unfolding call ℕ_discrete
call_limits_example =
    RequestLimits.call_limits ℕ_discrete 1 (λ n. some n) true 100 []
      (http_request 30 ∷ other_message ∷ http_request 80 ∷ [])

abbrev records : List ℕ
records = 1 ∷ 2 ∷ 3 ∷ []

-- Five records in a buffer of three, of which those below 4 are asked for.
abbrev is_low : ℕ → Bool
is_low n = ltb n 4

get_recent_logs-emit_all_example :
    get_recent_logs 1 (some is_low) (emit_all 3 (records ++ 4 ∷ 5 ∷ []) []) ≡ 3 ∷ []
get_recent_logs-emit_all_example =
    LogBuffer.get_recent_logs-emit_all 1 2 (some is_low) (records ++ 4 ∷ 5 ∷ [])

abbrev levels : List Text
levels = codes "ERROR" ∷ codes "TRACE" ∷ codes "ERROR" ∷ []

counted :
    (level_count (codes "ERROR") (log_counts (λ level. level) levels) ≡ 2)
    × (level_count (codes "TRACE") (log_counts (λ level. level) levels) ≡ 1)
    × (level_count (codes "INFO") (log_counts (λ level. level) levels) ≡ 0)
unfolding log_counts lookup insert Text-discrete ℕ_discrete
counted = (refl, refl, refl)
