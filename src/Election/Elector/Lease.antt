-- ===== src/Election/Elector/Lease.antt =====
-- The ticks that go by the Redis lease, those that go by the local lock, and what every tick keeps.
use metroflow_ai_backend.Common.{
  ℕ, ◌+◌, ◌≡◌, ◌≢◌, Bool, true, false, some, arith, sym, ap, ◌∙◌, Option-cases, inl, inr,
}
use metroflow_ai_backend.Common.Dict.{lookup-insert_self}
use metroflow_ai_backend.Cache.Local.{seconds}
use metroflow_ai_backend.Cache.Client.{RedisState}
use metroflow_ai_backend.Cache.Redis.{Redis}
use metroflow_ai_backend.Cache.Json.{Env, World}
use metroflow_ai_backend.Cache.Lease.{try_acquire_or_renew_lock, release_lock}
use metroflow_ai_backend.Cache.Lease.Exclusion.{Holds, try_acquire_or_renew_lock-Holds}
use metroflow_ai_backend.Election.LocalLock.{
  Calls, Process, Host, open_and_lock, try_acquire, is_held,
}
use metroflow_ai_backend.Election.Elector.{
  Elector, Node, is_active, finish_tick, observe, goes_local, consult, election_tick,
}
use metroflow_ai_backend.Election.Elector.Tick.{look, election_tick_outcome}

-- What a process keeps through all its steps.
pub record SameIdentity {Name Holder Text : Type 0} (e e' : Elector Name Holder Text) : Type 0 where
  pub name : e'.name ≡ e.name
  pub lock_key : e'.lock_key ≡ e.lock_key
  pub holder_id : e'.holder_id ≡ e.holder_id
  pub lease_seconds : e'.lease_seconds ≡ e.lease_seconds

module _ {Name Holder Text : Type 0} (now : ℕ) where
  observe-SameIdentity :
      (state : RedisState) (e : Elector Name Holder Text) → SameIdentity e (observe now state e)
  unfolding observe
  observe-SameIdentity state e = ground arith

  finish_tick-SameIdentity :
      (won : Bool) (e : Elector Name Holder Text) → SameIdentity e (finish_tick now won e).1
  unfolding finish_tick
  finish_tick-SameIdentity won e = ground arith

  heartbeat_won :
      (e : Elector Name Holder Text) → (finish_tick now true e).1.last_heartbeat_ts ≡ some now
  unfolding finish_tick
  heartbeat_won e = ground arith

module _ {Name Holder Text : Type 0} (dec_holder : Discrete Holder) (redis : Redis Name Holder)
    (env : Env Text) where
  open redis use {Server, get}

  -- The call for the lease leaves the server alone where another process has the lease.
  acquire_foreign :
      (key : Name) (holder other : Holder) (ttl : ℕ) (w : World Name Holder Text Server)
      → get env.now key w.server ≡ some other
      → other ≢ holder
      → (try_acquire_or_renew_lock dec_holder redis env key holder ttl w).1.server ≡ w.server
  unfolding try_acquire_or_renew_lock
  acquire_foreign key holder other ttl w taken ne = ground arith

  pub release_foreign :
      (key : Name) (holder other : Holder) (w : World Name Holder Text Server)
      → get env.now key w.server ≡ some other
      → other ≢ holder
      → (release_lock dec_holder redis env key holder w).1.server ≡ w.server
  unfolding release_lock
  release_foreign key holder other w taken ne = ground arith

module _ {Name Holder Text : Type 0} (dec : Discrete Name) (dec_holder : Discrete Holder)
    (redis : Redis Name Holder) (env : Env Text) (calls : Calls) where
  open redis use {Server, get}

  -- The lease's path of a tick: the local locks are given up, and the lease decides.
  consult_redis :
      (state : RedisState) (n : Node Name Holder Text Server)
      → goes_local env.now state n.elector ≡ false
      → let e = n.elector in
        let (won, cache) =
          try_acquire_or_renew_lock dec_holder redis env e.lock_key e.holder_id e.lease_seconds
            n.cache in
        let (decided, n') = consult dec dec_holder redis env calls state n in
        (decided ≡ won) × (n'.cache ≡ cache) × (n'.elector ≡ e)
  unfolding consult
  consult_redis state n path = (ground arith, ground arith, ground arith)

  consult_elector :
      (state : RedisState) (n : Node Name Holder Text Server)
      → (consult dec dec_holder redis env calls state n).1.elector ≡ n.elector
  unfolding consult
  consult_elector state n = ground arith

  abbrev pub seen : Node Name Holder Text Server → Node Name Holder Text Server
  seen n = (look dec dec_holder redis env calls n).1

  pub seen-SameIdentity :
      (n : Node Name Holder Text Server) → SameIdentity n.elector (seen n).elector
  seen-SameIdentity n =
      observe-SameIdentity env.now (look dec dec_holder redis env calls n).0 n.elector

  -- The tick consults the lease.
  abbrev pub GoesByLease : Node Name Holder Text Server → Type 0
  GoesByLease n =
      goes_local env.now (look dec dec_holder redis env calls n).0 (seen n).elector ≡ false

  -- The tick consults the local lock.
  abbrev pub GoesLocal : Node Name Holder Text Server → Type 0
  GoesLocal n = goes_local env.now (look dec dec_holder redis env calls n).0 (seen n).elector ≡ true

  -- A tick by the lease that ends with a running worker holds the lease from now on, and has just
  -- recorded its heartbeat.
  pub tick-Holds :
      (n : Node Name Holder Text Server)
      → GoesByLease n
      → is_active (election_tick dec dec_holder redis env calls n).1.elector ≡ true
      → let n' = (election_tick dec dec_holder redis env calls n).1 in
        let e = (seen n).elector in
        Holds redis e.lock_key e.holder_id env.now
          (env.now + seconds e.lease_seconds)
          n'.cache.server
        × (n'.elector.last_heartbeat_ts ≡ some env.now)
  unfolding election_tick
  tick-Holds n path active =
      let (decided, cache, same) =
        consult_redis (look dec dec_holder redis env calls n).0 (seen n) path in
      let consulted = sym (election_tick_outcome dec dec_holder redis env calls n).0 ∙ active in
      let e = (seen n).elector in
      (
        rw cache (
            try_acquire_or_renew_lock-Holds dec_holder redis e.lock_key env e.holder_id
              e.lease_seconds (seen n).cache (sym decided ∙ consulted)),
        rw consulted (heartbeat_won env.now _),
      )

  -- A tick by the lease leaves the server alone where another process has the lease, and ends
  -- without a worker.
  pub tick_foreign :
      (n : Node Name Holder Text Server) (other : Holder)
      → GoesByLease n
      → get env.now (seen n).elector.lock_key n.cache.server ≡ some other
      → other ≢ (seen n).elector.holder_id
      → (election_tick dec dec_holder redis env calls n).1.cache.server ≡ n.cache.server
  unfolding election_tick
  tick_foreign n other path taken ne =
      let (decided, cache, same) =
        consult_redis (look dec dec_holder redis env calls n).0 (seen n) path in
      let e = (seen n).elector in
      rw cache (
        acquire_foreign dec_holder redis env e.lock_key e.holder_id other e.lease_seconds
          (seen n).cache taken ne)

  opened-is_held :
      (name : Name) (holder : Holder) (p : Process Name Holder) (host : Host Name)
      → let (won, p', host') = open_and_lock dec dec_holder calls name (some holder) p host in
        won ≡ true → is_held dec dec_holder name (some holder) p' ≡ true
  unfolding open_and_lock is_held
  opened-is_held name holder p host won = elim (Option-cases calls.opened) [
    | inl closed ↦ absurd (ground (arith, won, closed))
    | inr (fd, opened) ↦
        ground (arith, won, opened, lookup-insert_self dec name (fd, some holder) p.held_fds)
  ]

  won_local-is_held :
      (name : Name) (holder : Holder) (p : Process Name Holder) (host : Host Name)
      → let (won, p', host') = try_acquire dec dec_holder calls name (some holder) p host in
        won ≡ true → is_held dec dec_holder name (some holder) p' ≡ true
  unfolding try_acquire is_held
  won_local-is_held name holder p host won = ground (arith, won, opened-is_held name holder p host)

  -- The local lock's path of a tick leaves the cache alone.
  consult_local :
      (state : RedisState) (n : Node Name Holder Text Server)
      → goes_local env.now state n.elector ≡ true
      → let e = n.elector in
        let (won, p, host) =
          try_acquire dec dec_holder calls e.name (some e.holder_id) n.process n.host in
        let (decided, n') = consult dec dec_holder redis env calls state n in
        (decided ≡ won) × (n'.cache ≡ n.cache) × (n'.process ≡ p)
  unfolding consult
  consult_local state n path = (ground arith, ground arith, ground arith)

  pub tick-SameIdentity :
      (n : Node Name Holder Text Server)
      → SameIdentity n.elector (election_tick dec dec_holder redis env calls n).1.elector
  unfolding election_tick
  tick-SameIdentity n =
      let locked =
        consult dec dec_holder redis env calls (look dec dec_holder redis env calls n).0 (seen n) in
      ground (
        arith,
        consult_elector (look dec dec_holder redis env calls n).0 (seen n),
        observe-SameIdentity env.now (look dec dec_holder redis env calls n).0 n.elector,
        finish_tick-SameIdentity env.now locked.0 locked.1.elector,
      )

  -- A tick by the local lock leaves the server alone, and ends with a running worker only where the
  -- process holds the local lock.
  pub tick_local :
      (n : Node Name Holder Text Server)
      → GoesLocal n
      → let n' = (election_tick dec dec_holder redis env calls n).1 in
        (n'.cache.server ≡ n.cache.server)
        × (is_active n'.elector ≡ true
            → is_held dec dec_holder n'.elector.name (some n'.elector.holder_id) n'.process ≡ true)
  unfolding election_tick
  tick_local n path =
      let (decided, cache, process) =
        consult_local (look dec dec_holder redis env calls n).0 (seen n) path in
      let e = (seen n).elector in
      let same = tick-SameIdentity n in
      let saw = seen-SameIdentity n in
      (
        ap (λ w. w.server) cache,
        λ active.
            let consulted =
              sym decided
              ∙ sym (election_tick_outcome dec dec_holder redis env calls n).0
              ∙ active in
            let held =
              won_local-is_held e.name e.holder_id (seen n).process (seen n).host consulted in
            ap (is_held dec dec_holder _ _) process
            ∙ (λ i.
                is_held dec dec_holder ((same.name ∙ sym saw.name) i)
                  (some ((same.holder_id ∙ sym saw.holder_id) i))
                  (try_acquire dec dec_holder calls e.name (some e.holder_id) (seen n).process
                    (seen n).host).1)
            ∙ held,
      )
