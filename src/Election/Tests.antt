-- ===== src/Election/Tests.antt =====
-- Runs of the local lock and of the election at concrete inputs.
use metroflow_ai_backend.Common.{
  ℕ, ◌≡◌, refl, true, false, ◌&&◌, Option, none, some, List, [], ◌∷◌, arith, if◌then◌else◌,
  ℕ_discrete,
}
use metroflow_ai_backend.Common.Dict.{lookup, insert, erase}
use metroflow_ai_backend.Cache.Client.{Client, initial, mark_down, get_client, redis_status}
use metroflow_ai_backend.Cache.Client.Backoff
use metroflow_ai_backend.Cache.Json.{Env}
use metroflow_ai_backend.Cache.Lease.{try_acquire_or_renew_lock}
use metroflow_ai_backend.Cache.Memory.{Memory, memory}
use metroflow_ai_backend.Cache.Redis.{Link, answered}
use metroflow_ai_backend.Election.LocalLock.{
  Process, Host, Calls, open_and_lock, try_acquire, release, is_held,
}
use metroflow_ai_backend.Election.LocalLock.Run
use metroflow_ai_backend.Election.Elector.{
  Task, running, crashed, Elector, Node, is_active, cancel_and_await, finish_tick, observe,
  goes_local, consult, election_tick, election_round,
}
use metroflow_ai_backend.Election.Elector.Tick
use metroflow_ai_backend.Election.Elector.Fleet
use metroflow_ai_backend.Election.Elector.Fleet.Guard
use metroflow_ai_backend.Election.Elector.Fleet.Single

program : Unit {0}
unfolding lookup insert erase mark_down get_client redis_status try_acquire_or_renew_lock
    open_and_lock try_acquire release is_held Run.run is_active finish_tick observe goes_local
    consult election_tick election_round ℕ_discrete
program = tt

abbrev at : ℕ → Link → Option ℕ → Env ℕ
at now link ping = record { enabled = true; now = now; ping = ping; link = link; exc = 7 }

abbrev process : ℕ → Process ℕ ℕ
process pid = record { pid = pid; flock_available = true; held_fds = [] }

abbrev host : Host ℕ
host _ = none

abbrev calls : Calls
calls = record { opened = some 3; flock_fails = false }

abbrev pair : Run.Pair ℕ ℕ
pair = (process 1, process 2, host)

pair-AreValid : Run.AreValid ℕ_discrete ℕ_discrete pair
unfolding program
pair-AreValid = record {
  first = record { distinct = tt; held = λ _ _ _ e. cc (e) };
  second = record { distinct = tt; held = λ _ _ _ e. cc (e) };
  apart = omega arith;
}

abbrev turns : List (Run.Op ℕ ℕ)
turns =
    Run.acquire_first calls 5 (some 1)
    ∷ Run.acquire_second calls 5 (some 2)
    ∷ Run.release_first 5 (some 1)
    ∷ Run.acquire_second calls 5 (some 2)
    ∷ []

-- The second process gets the lock once the first has given it back.
turns_taken :
    let (p, q, _) = Run.run ℕ_discrete ℕ_discrete turns pair in
    (is_held ℕ_discrete ℕ_discrete 5 none p ≡ false)
    × (is_held ℕ_discrete ℕ_discrete 5 none q ≡ true)
unfolding program
turns_taken = (refl, refl)

run_excludes_example :
    let (p, q, _) = Run.run ℕ_discrete ℕ_discrete turns pair in
    (is_held ℕ_discrete ℕ_discrete 5 none p && is_held ℕ_discrete ℕ_discrete 5 none q) ≡ false
run_excludes_example = Run.run_excludes ℕ_discrete ℕ_discrete turns 5 pair pair-AreValid

abbrev elector : ℕ → Option (Task ℕ) → Elector ℕ ℕ ℕ
elector i worker = record {
  name = 0;
  lock_key = 1;
  holder_id = i;
  lease_seconds = 15;
  election_task = some running;
  worker_task = worker;
  redis_ever_reachable = true;
  last_worker_error = none;
  redis_down_since = none;
  last_connected_at = none;
  heartbeat_ticks_total = 0;
  leadership_acquired_total = 0;
  leadership_lost_total = 0;
  worker_crashes_total = 0;
  last_heartbeat_ts = none;
}

abbrev up : Client ℕ
up = record initial { connected = true; last_state_connected = some true }

abbrev node : ℕ → Option (Task ℕ) → Client ℕ → Memory → Node ℕ ℕ ℕ Memory
node i worker client server = record {
  elector = elector i worker;
  process = process i;
  host = host;
  cache = record { local = []; client = client; server = server };
}

abbrev free : Memory
free _ = none

abbrev taken : Memory
taken _ = some (9, none)

election_tick_outcome_example :
    let n = node 4 none up free in
    let (raised, n') = election_tick ℕ_discrete ℕ_discrete memory (at 1000 answered none) calls n in
    (is_active n'.elector ≡ Tick.won ℕ_discrete ℕ_discrete memory (at 1000 answered none) calls n)
    × (raised ≡ (
        if Tick.won ℕ_discrete ℕ_discrete memory (at 1000 answered none) calls n
        then none
        else cancel_and_await none))
election_tick_outcome_example =
    Tick.election_tick_outcome ℕ_discrete ℕ_discrete memory (at 1000 answered none) calls
      (node 4 none up free)

initial-IsValid : Backoff.IsValid {Error = ℕ} (mark_down 100 7 initial)
unfolding program
initial-IsValid = record { above = omega arith; below = omega arith; up = λ e. cc (e) }

abbrev cut : Node ℕ ℕ ℕ Memory
cut =
    let n = node 4 (some running) (mark_down 100 7 initial) free in
    record n { elector = record (n.elector) { redis_down_since = some 50 } }

election_round_dies_example :
    let n = node 4 (some (crashed 77)) up taken in
    let n' = election_round ℕ_discrete ℕ_discrete memory (at 1000 answered none) calls n in
    (n'.elector.election_task ≡ some (crashed 77))
    × (election_round ℕ_discrete ℕ_discrete memory (at 9000 answered none) calls n' ≡ n')
unfolding program
election_round_dies_example =
    Tick.election_round_dies ℕ_discrete ℕ_discrete memory (at 1000 answered none)
      (at 9000 answered none) calls calls (node 4 (some (crashed 77)) up taken) 77 refl refl refl

abbrev idle : Fleet.Fleet ℕ ℕ ℕ Memory
idle = record { clock = 0; server = free; node = λ i. node i none up free }

abbrev won : Fleet.Fleet ℕ ℕ ℕ Memory
won =
    Fleet.become idle 4 1000
      (election_round ℕ_discrete ℕ_discrete memory (at 1000 answered none) calls (Fleet.at idle 4))

idle-won : Fleet.Reach ℕ_discrete ℕ_discrete memory idle won
unfolding program
idle-won = Fleet.next Fleet.here (Fleet.round 4 (at 1000 answered none) calls (omega arith) refl)

won-Fresh :
    Guard.Fresh ℕ_discrete ℕ_discrete memory 1 15
      (λ i. i)
      (λ i j e. e)
      4
      won.clock
      (won.node 4).elector
      (won.node 4).process
unfolding program
won-Fresh = record {
  active = refl;
  by_lease = refl;
  heartbeat = 1000;
  beat = refl;
  within = omega arith;
}

Reach-single_example : let i : ℕ = 4 in i ≡ 4
unfolding program
Reach-single_example =
    Single.Reach-single ℕ_discrete ℕ_discrete memory 1 15 (λ i. i) (λ i j e. e) 4 4
      (λ k. record { lock_key = refl; holder_id = refl; lease_seconds = refl }) (λ k. refl) idle-won
      won-Fresh won-Fresh
