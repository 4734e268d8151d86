-- ===== src/Election/Elector/Tick.antt =====
-- What one tick of the election does to a process.
use metroflow_ai_backend.Common.{
  ℕ, ◌+◌, ◌<◌, ◌≡◌, Bool, true, false, Option, none, some, arith, if◌then◌else◌, ◌∙◌,
}
use metroflow_ai_backend.Cache.Local.{seconds}
use metroflow_ai_backend.Cache.Client.{
  Client, RedisState, unreachable, redis_status, get_client, mark_down,
}
use metroflow_ai_backend.Cache.Client.Backoff.{IsValid}
use metroflow_ai_backend.Cache.Redis.{Redis}
use metroflow_ai_backend.Cache.Json.{Env, World}
use metroflow_ai_backend.Cache.Lease.{try_acquire_or_renew_lock}
use metroflow_ai_backend.Election.LocalLock.{Calls}
use metroflow_ai_backend.Election.Elector.{
  Task, running, crashed, Elector, Node, is_active, cancel_and_await, finish_tick, observe,
  goes_local, consult, election_tick, election_round,
}

module _ {Name Holder Text : Type 0} where
  finish_tick_lem :
      (now : ℕ) (won : Bool) (e : Elector Name Holder Text)
      → (is_active (finish_tick now won e).1 ≡ won)
        × ((finish_tick now won e).0 ≡ (if won then none else cancel_and_await e.worker_task))
  unfolding finish_tick
  finish_tick_lem now true e = (ground arith, ground arith)
  finish_tick_lem now false e = (ground arith, ground arith)

module _ {Name Holder Text : Type 0} (dec : Discrete Name) (dec_holder : Discrete Holder)
    (redis : Redis Name Holder) (env : Env Text) (calls : Calls) where
  open redis use {Server}

  -- The state that the tick sees: Redis's, and the node with it noted.
  abbrev pub look : Node Name Holder Text Server → RedisState × Node Name Holder Text Server
  look n =
      let (state, client) = redis_status env.enabled env.now env.ping n.cache.client in
      (
        state,
        record n {
          elector = observe env.now state n.elector;
          cache = record (n.cache) { client = client };
        },
      )

  abbrev pub won : Node Name Holder Text Server → Bool
  won n = (consult dec dec_holder redis env calls (look n).0 (look n).1).0

  worker_kept :
      (n : Node Name Holder Text Server)
      → (consult dec dec_holder redis env calls (look n).0 (look n).1).1.elector.worker_task
        ≡ n.elector.worker_task
  unfolding consult observe
  worker_kept n = ground arith

  -- After every tick, on every branch, the worker runs exactly if the lock that the tick consulted
  -- was won; and the tick raises exactly if that lock was lost while the worker task had crashed,
  -- with the exception of the worker.
  pub election_tick_outcome :
      (n : Node Name Holder Text Server)
      → let (raised, n') = election_tick dec dec_holder redis env calls n in
        (is_active n'.elector ≡ won n)
        × (raised ≡ (if won n then none else cancel_and_await n.elector.worker_task))
  unfolding election_tick
  election_tick_outcome n =
      let locked = consult dec dec_holder redis env calls (look n).0 (look n).1 in
      let (active, raised) = finish_tick_lem env.now locked.0 locked.1.elector in
      (active, rw (worker_kept n) at raised)

  unreachable_stays :
      (c : Client Text)
      → IsValid c
      → (redis_status env.enabled env.now env.ping c).0 ≡ unreachable
      → (get_client env.enabled env.now env.ping (redis_status env.enabled env.now env.ping c).1).0
        ≡ false
  unfolding redis_status get_client mark_down
  unreachable_stays c h away = ground arith

  lease_not_won :
      (c : Client Text) (w : World Name Holder Text Server) (key : Name) (holder : Holder) (ttl : ℕ)
      → (get_client env.enabled env.now env.ping w.client).0 ≡ false
      → (try_acquire_or_renew_lock dec_holder redis env key holder ttl w).0 ≡ false
  unfolding try_acquire_or_renew_lock
  lease_not_won c w key holder ttl away = ground arith

  consult_away :
      (state : RedisState) (n : Node Name Holder Text Server)
      → goes_local env.now state n.elector ≡ false
      → (get_client env.enabled env.now env.ping n.cache.client).0 ≡ false
      → (consult dec dec_holder redis env calls state n).0 ≡ false
  unfolding consult
  consult_away state n redis_path away = ground (
    arith,
    lease_not_won n.cache.client n.cache n.elector.lock_key n.elector.holder_id
        n.elector.lease_seconds away,
  )

  still_redis :
      (e : Elector Name Holder Text) (since : ℕ)
      → e.redis_ever_reachable ≡ true
      → e.redis_down_since ≡ some since
      → env.now < since + seconds e.lease_seconds
      → goes_local env.now unreachable (observe env.now unreachable e) ≡ false
  unfolding goes_local observe
  still_redis e since ever down window = ground arith

  -- Fail closed: a process that has reached Redis before, and for which Redis has now been away
  -- since `since` for less than the lease, runs no worker after its tick.
  pub election_tick_fails_closed :
      (n : Node Name Holder Text Server) (since : ℕ)
      → IsValid n.cache.client
      → (look n).0 ≡ unreachable
      → n.elector.redis_ever_reachable ≡ true
      → n.elector.redis_down_since ≡ some since
      → env.now < since + seconds n.elector.lease_seconds
      → is_active (election_tick dec dec_holder redis env calls n).1.elector ≡ false
  election_tick_fails_closed n since h away ever down window =
      let m = (look n).1 in
      let path : goes_local env.now (look n).0 m.elector ≡ false =
        rw away (still_redis n.elector since ever down window) in
      (election_tick_outcome n).0
      ∙ consult_away (look n).0 m path (unreachable_stays n.cache.client h away)

lost_raises :
    {Text : Type 0} (w : Bool) (task : Option (Task Text)) (error : Text)
    → w ≡ false
    → task ≡ some (crashed error)
    → (if w then none else cancel_and_await task) ≡ some error
lost_raises w task error lost crash = rw (lost, crash)

dead_stays :
    {Name Holder Text : Type 0} (dec : Discrete Name) (dec_holder : Discrete Holder)
    (redis : Redis Name Holder) (env : Env Text) (calls : Calls)
    (n : Node Name Holder Text redis.Server) (error : Text)
    → n.elector.election_task ≡ some (crashed error)
    → election_round dec dec_holder redis env calls n ≡ n
unfolding election_round
dead_stays dec dec_holder redis env calls n error dead = simp (dead, election_round)

-- A worker crash can end the election of its process: if the tick after the crash does not win the
-- lock, the round raises the worker's exception once more, the election task dies of it, and no
-- later round does anything, whatever the environment, though the lock may be free.
pub election_round_dies :
    {Name Holder Text : Type 0} (dec : Discrete Name) (dec_holder : Discrete Holder)
    (redis : Redis Name Holder) (env later : Env Text) (calls calls' : Calls)
    (n : Node Name Holder Text redis.Server) (error : Text)
    → n.elector.election_task ≡ some running
    → n.elector.worker_task ≡ some (crashed error)
    → won dec dec_holder redis env calls n ≡ false
    → let n' = election_round dec dec_holder redis env calls n in
      (n'.elector.election_task ≡ some (crashed error))
      × (election_round dec dec_holder redis later calls' n' ≡ n')
unfolding election_round
election_round_dies dec dec_holder redis env later calls calls' n error alive crash lost =
    let raised : (election_tick dec dec_holder redis env calls n).0 ≡ some error =
      (election_tick_outcome dec dec_holder redis env calls n).1
      ∙ lost_raises (won dec dec_holder redis env calls n) n.elector.worker_task error lost crash in
    let dead : (election_round dec dec_holder redis env calls n).elector.election_task
        ≡ some (crashed error) =
      simp (alive, raised, election_round) in
    (
      dead,
      dead_stays dec dec_holder redis later calls' (election_round dec dec_holder redis env calls n)
          error dead,
    )
