-- ===== src/Election/Elector/Fleet/Single.antt =====
-- At most one process of a fleet runs the loop by a lease that has not run out.
use metroflow_ai_backend.Common.{
  ℕ, ◌≤◌, ◌≡◌, ◌≢◌, inl, inr, false, Option, none, some, arith, refl, Option-cases,
}
use metroflow_ai_backend.Cache.Redis.{Redis}
use metroflow_ai_backend.Cache.Json.{Env}
use metroflow_ai_backend.Election.LocalLock.{Calls, Host}
use metroflow_ai_backend.Election.Elector.{
  Node, Task, running, crashed, exited, is_active, election_tick, election_round, stop, stop_worker,
  on_worker_done, cancel_and_await,
}
use metroflow_ai_backend.Election.Elector.Lease.{release_foreign}
use metroflow_ai_backend.Election.Elector.Fleet.{
  Fleet, at, Step, round, worker_done, stopped, host_locks, Reach, here, next,
}
use metroflow_ai_backend.Election.Elector.Fleet.Guard.{
  Configured, Fresh, IsGuarded, Keeps, become-IsGuarded, Keeps-self, tick-Keeps,
}

module _ {Name Holder Text : Type 0} (dec : Discrete Name) (dec_holder : Discrete Holder)
    (redis : Redis Name Holder) (key : Name) (lease : ℕ) (holder : ℕ → Holder)
    (apart : (i j : ℕ) → holder i ≡ holder j → i ≡ j) where
  open redis use {Server, get}

  -- Whether the election task still runs says nothing of the lease.
  task-Keeps :
      (f : Fleet Name Holder Text Server) (i now : ℕ) (n : Node Name Holder Text Server)
      (task : Option (Task Text))
      → Keeps dec dec_holder redis key lease holder apart f i now n
      → Keeps dec dec_holder redis key lease holder apart f i now
          (record n { elector = record (n.elector) { election_task = task } })
  unfolding is_active
  task-Keeps f i now n task k = record {
    later = k.later;
    config = record {
      lock_key = k.config.lock_key;
      holder_id = k.config.holder_id;
      lease_seconds = k.config.lease_seconds;
    };
    own = λ t fresh le.
        k.own t
          (record {
            active = fresh.active;
            by_lease = fresh.by_lease;
            heartbeat = fresh.heartbeat;
            beat = fresh.beat;
            within = fresh.within;
          })
          le;
    foreign = k.foreign;
  }

  round-Keeps :
      (f : Fleet Name Holder Text Server) (i : ℕ) (env : Env Text) (calls : Calls)
      (task : Option (Task Text))
      → (f.node i).elector.election_task ≡ task
      → f.clock ≤ env.now
      → IsGuarded dec dec_holder redis key lease holder apart f
      → Keeps dec dec_holder redis key lease holder apart f i env.now
          (election_round dec dec_holder redis env calls (at f i))
  unfolding election_round
  round-Keeps f i env calls none e later h =
      rw (e, election_round)
        (Keeps-self dec dec_holder redis key lease holder apart f i env.now later h)
  round-Keeps f i env calls (some (crashed error)) e later h =
      rw (e, election_round)
        (Keeps-self dec dec_holder redis key lease holder apart f i env.now later h)
  round-Keeps f i env calls (some exited) e later h =
      rw (e, election_round)
        (Keeps-self dec dec_holder redis key lease holder apart f i env.now later h)
  round-Keeps f i env calls (some running) e later h =
      let k = tick-Keeps dec dec_holder redis key lease holder apart f i env calls later h in
      elim (Option-cases (election_tick dec dec_holder redis env calls (at f i)).0) [
        | inl fine ↦ rw (e, election_round, fine) k
        | inr (error, raised) ↦
            rw (e, election_round, raised)
              (task-Keeps f i env.now (election_tick dec dec_holder redis env calls (at f i)).1
                (some (crashed error)) k)
      ]

  done-Keeps :
      (f : Fleet Name Holder Text Server) (i : ℕ) (error : Option Text)
      → IsGuarded dec dec_holder redis key lease holder apart f
      → Keeps dec dec_holder redis key lease holder apart f i f.clock
          (let n = at f i in record n { elector = on_worker_done error n.elector })
  unfolding on_worker_done is_active
  done-Keeps f i none h = record {
    later = omega arith;
    config = ground (arith, h.configured i);
    own = λ t fresh le. cc (fresh.active);
    foreign = λ other _ _. refl;
  }
  done-Keeps f i (some error) h = record {
    later = omega arith;
    config = ground (arith, h.configured i);
    own = λ t fresh le. cc (fresh.active);
    foreign = λ other _ _. refl;
  }

  -- A node without a worker claims nothing.
  idle-Keeps :
      (f : Fleet Name Holder Text Server) (i now : ℕ) (n : Node Name Holder Text Server)
      → f.clock ≤ now
      → Configured dec dec_holder redis key lease holder apart i n.elector
      → is_active n.elector ≡ false
      → ((other : Holder)
          → get now key f.server ≡ some other
          → other ≢ holder i
          → n.cache.server ≡ f.server)
      → Keeps dec dec_holder redis key lease holder apart f i now n
  idle-Keeps f i now n later c idle foreign = record {
    later = later;
    config = c;
    own = λ t fresh le. cc (idle, fresh.active);
    foreign = foreign;
  }

  stop-Keeps :
      (f : Fleet Name Holder Text Server) (i : ℕ) (env : Env Text)
      → f.clock ≤ env.now
      → IsGuarded dec dec_holder redis key lease holder apart f
      → Keeps dec dec_holder redis key lease holder apart f i env.now
          (stop dec dec_holder redis env (at f i)).1
  unfolding stop stop_worker is_active
  stop-Keeps f i env later h =
      let n = at f i in
      let c = h.configured i in
      elim (Option-cases (cancel_and_await n.elector.election_task)) [
        | inr (error, died) ↦
            rw (died, stop)
              (task-Keeps f i env.now n none
                (Keeps-self dec dec_holder redis key lease holder apart f i env.now later h))
        | inl fine ↦ elim (Option-cases (cancel_and_await n.elector.worker_task)) [
          | inr (error, raised) ↦
              rw (fine, stop, raised)
                (idle-Keeps f i env.now _ later
                  (record {
                    lock_key = c.lock_key;
                    holder_id = c.holder_id;
                    lease_seconds = c.lease_seconds;
                  })
                  refl (λ other _ _. refl))
          | inl quiet ↦
              rw (fine, stop, quiet)
                (idle-Keeps f i env.now _ later
                  (record {
                    lock_key = c.lock_key;
                    holder_id = c.holder_id;
                    lease_seconds = c.lease_seconds;
                  })
                  refl
                  (λ other taken ne.
                    release_foreign dec_holder redis env n.elector.lock_key n.elector.holder_id
                      other n.cache (rw c.lock_key taken) (rw c.holder_id ne)))
        ]
      ]

  -- Who has the local locks of its host says nothing of the lease.
  host-Keeps :
      (f : Fleet Name Holder Text Server) (i : ℕ) (host : Host Name)
      → IsGuarded dec dec_holder redis key lease holder apart f
      → Keeps dec dec_holder redis key lease holder apart f i f.clock
          (let n = at f i in record n { host = host })
  host-Keeps f i host h =
      let k = Keeps-self dec dec_holder redis key lease holder apart f i f.clock (omega arith) h in
      record { later = k.later; config = k.config; own = k.own; foreign = k.foreign }

  Step-IsGuarded :
      (f g : Fleet Name Holder Text Server)
      → Step dec dec_holder redis f g
      → IsGuarded dec dec_holder redis key lease holder apart f
      → IsGuarded dec dec_holder redis key lease holder apart g
  Step-IsGuarded f g (round i env calls later e) h = rw e (
      become-IsGuarded dec dec_holder redis key lease holder apart f i env.now _ h
        (round-Keeps f i env calls (f.node i).elector.election_task refl later h))
  Step-IsGuarded f g (worker_done i error e) h = rw e (
      become-IsGuarded dec dec_holder redis key lease holder apart f i f.clock _ h
        (done-Keeps f i error h))
  Step-IsGuarded f g (stopped i env later e) h = rw e (
      become-IsGuarded dec dec_holder redis key lease holder apart f i env.now _ h
        (stop-Keeps f i env later h))
  Step-IsGuarded f g (host_locks i host e) h = rw e (
      become-IsGuarded dec dec_holder redis key lease holder apart f i f.clock _ h
        (host-Keeps f i host h))

  Reach-IsGuarded :
      {f g : Fleet Name Holder Text Server}
      → IsGuarded dec dec_holder redis key lease holder apart f
      → Reach dec dec_holder redis f g
      → IsGuarded dec dec_holder redis key lease holder apart g
  Reach-IsGuarded h here = h
  Reach-IsGuarded h (next {g = g} {h = g'} r s) = Step-IsGuarded g g' s (Reach-IsGuarded h r)

  -- In every fleet that is reached from one in which no worker runs, whatever the order of rounds,
  -- ends of workers, stops and changes of the hosts' locks, over working and failing links, and
  -- whether a round goes by the lease or by the local lock: two processes that run the loop
  -- without the local lock, on heartbeats younger than the lease, are the same process. A process
  -- that runs it by the local lock, where Redis is off or away for it, is not compared with them.
  -- The processes have one key and one lease, and a holder id each.
  pub Reach-single :
      {f g : Fleet Name Holder Text Server} (i j : ℕ)
      → ((k : ℕ) → Configured dec dec_holder redis key lease holder apart k (f.node k).elector)
      → ((k : ℕ) → is_active (f.node k).elector ≡ false)
      → Reach dec dec_holder redis f g
      → Fresh dec dec_holder redis key lease holder apart i g.clock
          (g.node i).elector
          (g.node i).process
      → Fresh dec dec_holder redis key lease holder apart j g.clock
          (g.node j).elector
          (g.node j).process
      → i ≡ j
  Reach-single {f} {g} i j c idle r first second =
      let start : IsGuarded dec dec_holder redis key lease holder apart f = record {
        configured = c;
        guarded = λ k t fresh _. cc (idle k, fresh.active);
      } in
      let h = Reach-IsGuarded start r in
      apart i j
        (cc (h.guarded i g.clock first (omega arith), h.guarded j g.clock second (omega arith)))
