-- ===== src/Election/Elector.antt =====
-- `class LeaderElection` of app/simulator/leader_election.py: one process's part in the election
-- of the single process that runs a loop. Clock readings are milliseconds.
pub mod Tick
pub mod Lease
pub mod Fleet
use metroflow_ai_backend.Common.{
  ℕ, ◌+◌, Bool, true, false, ◌&&◌, ◌||◌, not, Option, none, some, leb, if◌then◌else◌, is_some,
}
use metroflow_ai_backend.Cache.Local.{seconds}
use metroflow_ai_backend.Cache.Client.{RedisState, disabled, connected, unreachable, redis_status}
use metroflow_ai_backend.Cache.Redis.{Redis}
use metroflow_ai_backend.Cache.Json.{Env, World}
use metroflow_ai_backend.Cache.Lease.{try_acquire_or_renew_lock, release_lock}
use metroflow_ai_backend.Election.LocalLock.{Calls, Process, Host, try_acquire, release, is_held}

-- An asyncio task: running, ended by an exception with its text, or ended by itself.
pub data Task (Text : Type 0) : Type 0 where
  running : Task Text
  crashed : Text → Task Text
  exited : Task Text

pub record Elector (Name Holder Text : Type 0) : Type 0 where
  pub name : Name
  pub lock_key : Name
  pub holder_id : Holder
  pub lease_seconds : ℕ
  pub election_task : Option (Task Text)
  pub worker_task : Option (Task Text)
  pub redis_ever_reachable : Bool
  pub last_worker_error : Option Text
  pub redis_down_since : Option ℕ
  pub last_connected_at : Option ℕ
  pub heartbeat_ticks_total : ℕ
  pub leadership_acquired_total : ℕ
  pub leadership_lost_total : ℕ
  pub worker_crashes_total : ℕ
  pub last_heartbeat_ts : Option ℕ

pub data Status (Text : Type 0) : Type 0 where
  not_started leader standby : Status Text
  has_crashed : Text → Status Text

-- `task.cancel()` and `await task`, with `CancelledError` caught: to await a task that has crashed
-- raises its exception once more.
abbrev pub cancel_and_await : {Text : Type 0} → Option (Task Text) → Option Text
cancel_and_await none = none
cancel_and_await (some running) = none
cancel_and_await (some (crashed error)) = some error
cancel_and_await (some exited) = none

-- `a or b` on a time that may be missing or 0.
abbrev or_now : Option ℕ → ℕ → ℕ
or_now none now = now
or_now (some t) now = if leb t 0 then now else t

module _ {Name Holder Text : Type 0} where
  unfoldable pub is_active : Elector Name Holder Text → Bool
  is_active e = elim e.worker_task [
    | none ↦ false
    | some task ↦ elim task [ running ↦ true | crashed _ ↦ false | exited ↦ false ]
  ]

  unfoldable pub status : Elector Name Holder Text → Status Text
  unfolding is_active
  status e =
      if not (is_some e.election_task)
      then not_started
      else if is_active e
      then leader
      else elim e.last_worker_error [ some error ↦ has_crashed error | none ↦ standby ]

  record_heartbeat : ℕ → Elector Name Holder Text → Elector Name Holder Text
  record_heartbeat now e = record e {
    heartbeat_ticks_total = e.heartbeat_ticks_total + 1;
    last_heartbeat_ts = some now;
  }

  -- `_start_worker`
  start_worker : Elector Name Holder Text → Elector Name Holder Text
  unfolding is_active
  start_worker e = if is_active e then e else record e { worker_task = some running }

  -- `_stop_worker`: the task is cancelled and awaited.
  unfoldable pub stop_worker : Elector Name Holder Text → Option Text × Elector Name Holder Text
  stop_worker e = (cancel_and_await e.worker_task, record e { worker_task = none })

  -- The end of a tick with the lock won: count, beat, and run the worker.
  unfoldable pub take_lead : ℕ → Elector Name Holder Text → Elector Name Holder Text
  unfolding is_active record_heartbeat start_worker
  take_lead now e =
      let counted =
        if is_active e
        then e
        else record e { leadership_acquired_total = e.leadership_acquired_total + 1 } in
      start_worker (record_heartbeat now counted)

  -- The end of a tick with the lock lost.
  unfoldable pub step_down : Elector Name Holder Text → Option Text × Elector Name Holder Text
  unfolding is_active stop_worker
  step_down e =
      stop_worker (
        if is_active e then record e { leadership_lost_total = e.leadership_lost_total + 1 } else e)

  unfoldable pub finish_tick :
      ℕ → Bool → Elector Name Holder Text → Option Text × Elector Name Holder Text
  unfolding take_lead step_down
  finish_tick now won e = if won then (none, take_lead now e) else step_down e

  -- The first part of a tick: how long Redis has been away.
  unfoldable pub observe : ℕ → RedisState → Elector Name Holder Text → Elector Name Holder Text
  observe now connected e = record e {
    redis_ever_reachable = true;
    redis_down_since = none;
    last_connected_at = some now;
  }
  observe now disabled e = e
  observe now unreachable e =
      if e.redis_ever_reachable && not (is_some e.redis_down_since)
      then record e { redis_down_since = some (or_now e.last_connected_at now) }
      else e

  -- `now - since >= lease_seconds`
  abbrev pub outage_exceeds_lease_window : ℕ → Elector Name Holder Text → Bool
  outage_exceeds_lease_window now e = elim e.redis_down_since [
    | none ↦ false
    | some since ↦ leb (since + seconds e.lease_seconds) now
  ]

  -- The tick goes by the local lock, and not by the lease.
  unfoldable pub goes_local : ℕ → RedisState → Elector Name Holder Text → Bool
  goes_local now disabled e = true
  goes_local now connected e = false
  goes_local now unreachable e = not e.redis_ever_reachable || outage_exceeds_lease_window now e

  -- `start`
  unfoldable pub start : Elector Name Holder Text → Elector Name Holder Text
  start e = elim e.election_task [
    | none ↦ record e { election_task = some running }
    | some task ↦ elim task [
      | running ↦ e
      | crashed _ ↦ record e { election_task = some running }
      | exited ↦ record e { election_task = some running }
    ]
  ]

  -- `_on_worker_done`, for a task that was not cancelled.
  unfoldable pub on_worker_done : Option Text → Elector Name Holder Text → Elector Name Holder Text
  on_worker_done (some error) e = record e {
    worker_task = some (crashed error);
    last_worker_error = some error;
    worker_crashes_total = e.worker_crashes_total + 1;
  }
  on_worker_done none e = record e { worker_task = some exited }

-- A process with what it shares: its elector, its local locks, the host's, and the cache.
pub record Node (Name Holder Text Server : Type 0) : Type 0 where
  pub elector : Elector Name Holder Text
  pub process : Process Name Holder
  pub host : Host Name
  pub cache : World Name Holder Text Server

module _ {Name Holder Text : Type 0} (dec : Discrete Name) (dec_holder : Discrete Holder)
    (redis : Redis Name Holder) where
  open redis use {Server}

  -- The lock of a tick: won or not, and the node with its locks changed.
  unfoldable pub consult :
      Env Text
      → Calls
      → RedisState
      → Node Name Holder Text Server
      → Bool × Node Name Holder Text Server
  consult env calls state n =
      let e = n.elector in
      if goes_local env.now state e
      then (let (won, process, host) =
            try_acquire dec dec_holder calls e.name (some e.holder_id) n.process n.host in
          (won, record n { process = process; host = host }))
      else (let (process, host) =
            if is_held dec dec_holder e.name (some e.holder_id) n.process
            then release dec dec_holder e.name (some e.holder_id) n.process n.host
            else (n.process, n.host) in
          let (won, cache) =
            try_acquire_or_renew_lock dec_holder redis env e.lock_key e.holder_id e.lease_seconds
              n.cache in
          (won, record n { process = process; host = host; cache = cache }))

  -- `_election_tick`: the exception that it raises, if any, and the node after it.
  unfoldable pub election_tick :
      Env Text → Calls → Node Name Holder Text Server → Option Text × Node Name Holder Text Server
  election_tick env calls n =
      let (state, client) = redis_status env.enabled env.now env.ping n.cache.client in
      let seen = record n {
        elector = observe env.now state n.elector;
        cache = record (n.cache) { client = client };
      } in
      let (won, locked) = consult env calls state seen in
      let (raised, elector) = finish_tick env.now won locked.elector in
      (raised, record locked { elector = elector })

  -- A round of `_election_loop`: an exception of the tick ends the loop for good.
  unfoldable pub election_round :
      Env Text → Calls → Node Name Holder Text Server → Node Name Holder Text Server
  unfolding election_tick
  election_round env calls n = elim n.elector.election_task [
    | none ↦ n
    | some task ↦ elim task [
      | running ↦
          let (raised, n') = election_tick env calls n in
          elim raised [
            | none ↦ n'
            | some error ↦ record n' {
              elector = record (n'.elector) { election_task = some (crashed error) };
            }
          ]
      | crashed _ ↦ n
      | exited ↦ n
    ]
  ]

  -- `stop`: the loop is cancelled, the worker stopped, and both locks given back.
  unfoldable pub stop :
      Env Text → Node Name Holder Text Server → Option Text × Node Name Holder Text Server
  stop env n = elim (cancel_and_await n.elector.election_task) [
    | some error ↦ (some error, record n { elector = record (n.elector) { election_task = none } })
    | none ↦
        let (raised, e) = stop_worker (record (n.elector) { election_task = none }) in
        elim raised [
          | some error ↦ (some error, record n { elector = e })
          | none ↦
              let (_, cache) = release_lock dec_holder redis env e.lock_key e.holder_id n.cache in
              let (process, host) =
                release dec dec_holder e.name (some e.holder_id) n.process n.host in
              (none, record n { elector = e; process = process; host = host; cache = cache })
        ]
  ]
