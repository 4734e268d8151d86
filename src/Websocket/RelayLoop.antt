-- ===== src/Websocket/RelayLoop.antt =====
-- The retries of `_relay_loop` of app/websocket/manager.py, which subscribes to the relay's channel
-- for as long as the process runs. Times are milliseconds.
use metroflow_ai_backend.Common.{
  ℕ, zero, suc, ◌*◌, ◌≤◌, ◌≡◌, refl, Bool, true, false, List, [], ◌∷◌, min, arith, All,
}

abbrev pub relay_backoff_floor : ℕ
relay_backoff_floor = 1000

abbrev pub relay_backoff_cap : ℕ
relay_backoff_cap = 30 * 1000

-- What a round of the outer loop meets: no Redis client, a subscription that fails, or a
-- subscription that ends with an error, after any messages.
pub data Round : Type 0 where
  no_client subscribe_fails session_ends : Round

pub record RelayLoop : Type 0 where
  pub backoff : ℕ
  pub redis_down_logged : Bool

abbrev pub initial_relay : RelayLoop
initial_relay = record { backoff = relay_backoff_floor; redis_down_logged = false }

abbrev pub doubled : ℕ → ℕ
doubled backoff = min (backoff * 2) relay_backoff_cap

-- A round: how long it waits at its end, and the state after it.
unfoldable pub relay_round : Round → RelayLoop → ℕ × RelayLoop
relay_round no_client s =
    (s.backoff, record { backoff = doubled s.backoff; redis_down_logged = true })
relay_round subscribe_fails s = (
  relay_backoff_floor,
  record { backoff = doubled relay_backoff_floor; redis_down_logged = false },
)
relay_round session_ends s = (
  relay_backoff_floor,
  record { backoff = doubled relay_backoff_floor; redis_down_logged = false },
)

unfoldable pub relay_rounds : List Round → RelayLoop → List ℕ × RelayLoop
unfolding relay_round
relay_rounds [] s = ([], s)
relay_rounds (round ∷ rounds) s =
    let (wait, s') = relay_round round s in
    let (waits, s'') = relay_rounds rounds s' in (wait ∷ waits, s'')

-- A wait is allowed.
abbrev pub IsWait : ℕ → Type 0
IsWait w = (relay_backoff_floor ≤ w) × (w ≤ relay_backoff_cap)

-- From any state whose back-off is between a second and thirty seconds, such as the first one, every
-- wait of every sequence of rounds is between a second and thirty seconds.
pub relay_waits :
    (rounds : List Round) (s : RelayLoop) → IsWait s.backoff → All IsWait (relay_rounds rounds s).0
unfolding relay_rounds
relay_waits [] s h = tt
relay_waits (no_client ∷ rounds) s h =
    (h, relay_waits rounds (relay_round no_client s).1 (omega arith, omega arith))
relay_waits (subscribe_fails ∷ rounds) s h = (
  (omega arith, omega arith),
  relay_waits rounds (relay_round subscribe_fails s).1 (omega arith, omega arith),
)
relay_waits (session_ends ∷ rounds) s h = (
  (omega arith, omega arith),
  relay_waits rounds (relay_round session_ends s).1 (omega arith, omega arith),
)

abbrev pub subscribe_failures : ℕ → List Round
subscribe_failures zero = []
subscribe_failures (suc n) = subscribe_fails ∷ subscribe_failures n

-- Subscriptions that fail in a row are tried again every second, however many they are and whatever
-- the back-off before them: the doubled back-off is never waited for, since the next round with a
-- client sets it back to the floor.
pub subscribe_failures_wait :
    (n : ℕ) (s : RelayLoop)
    → All (λ w. w ≡ relay_backoff_floor) (relay_rounds (subscribe_failures n) s).0
unfolding relay_rounds
subscribe_failures_wait zero s = tt
subscribe_failures_wait (suc n) s =
    (refl, subscribe_failures_wait n (relay_round subscribe_fails s).1)
