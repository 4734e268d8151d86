-- ===== src/Cache/Client.antt =====
-- The Redis connection state of app/core/cache.py: `_client`, the retry time and the back-off.
-- Clock readings are milliseconds; a call reads the clock once.
pub mod Backoff
use metroflow_ai_backend.Common.{
  ℕ, ◌+◌, ◌*◌, min, Bool, true, false, Option, none, some, ltb, if◌then◌else◌, not,
}

-- `_BACKOFF_FLOOR_SECONDS` and `_BACKOFF_CAP_SECONDS`
abbrev pub backoff_floor : ℕ
backoff_floor = 1000

abbrev pub backoff_cap : ℕ
backoff_cap = 60000

-- `Error` is what `repr(exc)` shows; `redis_failures` counts `metrics.record_redis_failure`.
pub record Client (Error : Type 0) : Type 0 where
  pub connected : Bool
  pub next_retry_at : ℕ
  pub current_backoff : ℕ
  pub last_state_connected : Option Bool
  pub last_error : Option Error
  pub redis_failures : ℕ

-- `_last_state_connected is connected`
same_state : Option Bool → Bool → Bool
same_state none connected = false
same_state (some true) connected = connected
same_state (some false) connected = not connected

module _ {Error : Type 0} where
  -- The values that the module starts with.
  abbrev pub initial : Client Error
  initial = record {
    connected = false;
    next_retry_at = 0;
    current_backoff = backoff_floor;
    last_state_connected = none;
    last_error = none;
    redis_failures = 0;
  }

  unfoldable pub log_state_change : Bool → Option Error → Client Error → Client Error
  unfolding same_state
  log_state_change connected error c =
      if same_state c.last_state_connected connected
      then c
      else record c { last_state_connected = some connected; last_error = error }

  unfoldable pub mark_down : ℕ → Error → Client Error → Client Error
  unfolding log_state_change
  mark_down now exc c =
      let logged =
        log_state_change false (some exc)
          (record c { connected = false; next_retry_at = now + c.current_backoff }) in
      record logged {
        current_backoff = min (logged.current_backoff * 2) backoff_cap;
        redis_failures = logged.redis_failures + 1;
      }

  unfoldable pub mark_up : Client Error → Client Error
  unfolding log_state_change
  mark_up c = log_state_change true none (record c { current_backoff = backoff_floor })

  -- `ping` is the outcome of building a client and pinging it: `none` when Redis answers.
  unfoldable pub connect : ℕ → Option Error → Client Error → Bool × Client Error
  unfolding mark_down mark_up
  connect now (some exc) c = (false, mark_down now exc c)
  connect now none c = (true, mark_up (record c { connected = true }))

  -- `enabled` is `settings.CACHE_ENABLED` with a `REDIS_URL`. The result says whether there is a
  -- client to talk to.
  unfoldable pub get_client : Bool → ℕ → Option Error → Client Error → Bool × Client Error
  unfolding connect
  get_client enabled now ping c =
      if not enabled
      then (false, c)
      else if c.connected
      then (true, c)
      else if ltb now c.next_retry_at
      then (false, c)
      else connect now ping c

-- `redis_status()["state"]`
pub data RedisState : Type 0 where
  disabled connected unreachable : RedisState

module _ {Error : Type 0} where
  unfoldable pub redis_status : Bool → ℕ → Option Error → Client Error → RedisState × Client Error
  redis_status enabled now ping c =
      if not enabled
      then (disabled, c)
      else let (up, c') = get_client enabled now ping c in
        (if up then connected else unreachable, c')
