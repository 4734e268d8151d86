-- ===== src/Cache/Client/Backoff.antt =====
-- The back-off of the Redis client: bounds, the doubling, and the return after an outage.
use Prim.Native.Nat.{◌^◌}
use native.Mathlib.Nat.{pow-suc, one-le-pow}
use metroflow_ai_backend.Common.{
  ℕ, ◌+◌, ◌*◌, min, ◌≤◌, ◌≡◌, ap, Bool, true, false, Option, none, some, List, [], ◌∷◌, length, All,
  arith, leb, ltb, if◌then◌else◌, inl, inr, Bool-cases,
}
use metroflow_ai_backend.Cache.Client.{
  Client, backoff_floor, backoff_cap, mark_down, mark_up, connect, get_client,
}

-- The cut at the cap may be taken at each step or once.
min_scale :
    (b p : ℕ)
    → 1 ≤ p
    → min (min (b * 2) backoff_cap * p) backoff_cap ≡ min (b * (p * 2)) backoff_cap
min_scale b p h = elim (Bool-cases (leb (b * 2) backoff_cap)) [
  | inl small ↦
      let e : min (b * 2) backoff_cap ≡ b * 2 = ground arith in
      rw e (ap (λ t. min t backoff_cap) (omega arith))
  | inr big ↦
      let e : min (b * 2) backoff_cap ≡ backoff_cap = ground arith in
      let grown : b * 2 ≤ b * 2 * p = grind arith in rw e (ground arith)
]

module _ {Error : Type 0} where
  pub record IsValid (c : Client Error) : Type 0 where
    pub above : backoff_floor ≤ c.current_backoff
    pub below : c.current_backoff ≤ backoff_cap
    pub up : c.connected ≡ true → c.last_state_connected ≡ some true

  pub mark_down-IsValid :
      (now : ℕ) (exc : Error) (c : Client Error) → IsValid c → IsValid (mark_down now exc c)
  unfolding mark_down
  mark_down-IsValid now exc c h = ground arith

  -- Every attempt to reach Redis keeps the back-off between one second and one minute, and a
  -- client that is connected has been logged as connected.
  pub get_client-IsValid :
      (enabled : Bool) (now : ℕ) (ping : Option Error) (c : Client Error)
      → IsValid c
      → IsValid (get_client enabled now ping c).1
  unfolding get_client
  get_client-IsValid enabled now ping c h = ground arith

  mark_down_lem :
      (now : ℕ) (exc : Error) (c : Client Error)
      → ((mark_down now exc c).current_backoff ≡ min (c.current_backoff * 2) backoff_cap)
        × ((mark_down now exc c).redis_failures ≡ c.redis_failures + 1)
  unfolding mark_down
  mark_down_lem now exc c = (ground arith, ground arith)

  -- A run of failures, each with the time and the error.
  unfoldable pub failures : List (ℕ × Error) → Client Error → Client Error
  failures [] c = c
  failures ((now, exc) ∷ rest) c = failures rest (mark_down now exc c)

  -- After n failures in a row from a back-off b within the cap, the back-off is b doubled n times
  -- and cut off at the cap, and n failures have been counted.
  pub failures_double :
      (events : List (ℕ × Error)) (c : Client Error)
      → c.current_backoff ≤ backoff_cap
      → ((failures events c).current_backoff
          ≡ min (c.current_backoff * 2 ^ length events) backoff_cap)
        × ((failures events c).redis_failures ≡ c.redis_failures + length events)
  unfolding failures
  failures_double [] c h = (ground arith, ground arith)
  failures_double ((now, exc) ∷ rest) c h =
      let (backoff, counted) = mark_down_lem now exc c in
      let (doubled, total) = failures_double rest (mark_down now exc c) (omega arith) in
      (
        rw (doubled, backoff, pow-suc 2 (length rest))
            (min_scale c.current_backoff (2 ^ length rest)
              (one-le-pow (length rest) 2 (omega arith))),
        omega arith,
      )

  -- After a failure at `now`, a call before the end of the back-off that was in force leaves the
  -- client as it is and contacts nobody, and from then on a call tries to connect.
  pub get_client-mark_down :
      (now later : ℕ) (exc : Error) (ping : Option Error) (c : Client Error)
      → let down = mark_down now exc c in
        get_client true later ping down
        ≡ (if ltb later (now + c.current_backoff) then (false, down) else connect later ping down)
  unfolding get_client mark_down
  get_client-mark_down now later exc ping c = ground arith

  reconnected :
      (later : ℕ) (c : Client Error)
      → ((connect later none c).0 ≡ true)
        × ((connect later none c).1.current_backoff ≡ backoff_floor)
        × ((connect later none c).1.last_state_connected ≡ some true)
  unfolding connect mark_up
  reconnected later c = (ground arith, ground arith, ground arith)

  -- The calls of an outage, in their order: each attempt to reach Redis fails.
  abbrev pub outage : List (ℕ × Error) → Client Error → Client Error
  outage [] c = c
  outage ((now, exc) ∷ rest) c = outage rest (get_client true now (some exc) c).1

  -- A client that is down, and waits for a minute at most from a time on.
  record IsWaiting (now : ℕ) (c : Client Error) : Type 0 where
    valid : IsValid c
    down : c.connected ≡ false
    soon : c.next_retry_at ≤ now + backoff_cap

  mark_down-IsWaiting :
      (t now : ℕ) (exc : Error) (c : Client Error)
      → t ≤ now
      → IsValid c
      → IsWaiting now (mark_down t exc c)
  unfolding mark_down
  mark_down-IsWaiting t now exc c le h = record {
    valid = mark_down-IsValid t exc c h;
    down = ground arith;
    soon = ground (arith, le, h.below);
  }

  attempt-IsWaiting :
      (t now : ℕ) (exc : Error) (c : Client Error)
      → t ≤ now
      → IsWaiting now c
      → IsWaiting now (get_client true t (some exc) c).1
  unfolding get_client connect
  attempt-IsWaiting t now exc c le h = elim (Bool-cases (ltb t c.next_retry_at)) [
    | inl early ↦
        let stays : (get_client true t (some exc) c).1 ≡ c = ground (arith, h.down, early) in
        rw stays h
    | inr due ↦
        let fails : (get_client true t (some exc) c).1 ≡ mark_down t exc c =
          ground (arith, h.down, due) in
        rw fails (mark_down-IsWaiting t now exc c le h.valid)
  ]

  outage-IsWaiting :
      (now : ℕ) (events : List (ℕ × Error)) (c : Client Error)
      → All (λ e. e.0 ≤ now) events
      → IsWaiting now c
      → IsWaiting now (outage events c)
  outage-IsWaiting now [] c le h = h
  outage-IsWaiting now ((t, exc) ∷ rest) c le h =
      outage-IsWaiting now rest (get_client true t (some exc) c).1 le.1
        (attempt-IsWaiting t now exc c le.0 h)

  -- However long an outage has lasted: after a failure and any calls that do not reach Redis, a
  -- minute after the last of them the next call that Redis answers has a client, and the back-off
  -- is one second again. Before the outage the back-off is within its bounds.
  pub get_client_recovers :
      (first now later : ℕ) (exc : Error) (events : List (ℕ × Error)) (c : Client Error)
      → IsValid c
      → first ≤ now
      → All (λ e. e.0 ≤ now) events
      → now + backoff_cap ≤ later
      → let (up, c') = get_client true later none (outage events (mark_down first exc c)) in
        (up ≡ true) × (c'.current_backoff ≡ backoff_floor) × (c'.last_state_connected ≡ some true)
  unfolding get_client
  get_client_recovers first now later exc events c h begun ended late =
      let w =
        outage-IsWaiting now events (mark_down first exc c) ended
          (mark_down-IsWaiting first now exc c begun h) in
      let due : ltb later (outage events (mark_down first exc c)).next_retry_at ≡ false =
        ground (arith, w.soon, late) in
      rw (w.down, due) (reconnected later (outage events (mark_down first exc c)))
