-- ===== src/Election/Elector/Fleet/Guard.antt =====
-- The invariant of a fleet: Redis names every process whose heartbeat is fresh. A step of one
-- process keeps it if that process does its part.
use native.Mathlib.Nat.{le_trans}
use mathlib.Core.Path.{subst}
use metroflow_ai_backend.Common.{
  ℕ, ◌+◌, ◌≤◌, ◌<◌, ◌≡◌, ◌≢◌, true, some, arith, refl, sym, ◌∙◌, ite, ℕ_discrete, false, inl, inr,
  Bool-cases,
}
use metroflow_ai_backend.Cache.Local.{seconds}
use metroflow_ai_backend.Cache.Redis.{Redis}
use metroflow_ai_backend.Cache.Json.{Env}
use metroflow_ai_backend.Election.LocalLock.{Calls, Process, is_held}
use metroflow_ai_backend.Election.Elector.{Elector, Node, is_active, goes_local, election_tick}
use metroflow_ai_backend.Election.Elector.Tick.{look}
use metroflow_ai_backend.Election.Elector.Lease.{
  SameIdentity, GoesByLease, GoesLocal, tick_local, seen, seen-SameIdentity, tick-Holds,
  tick_foreign, tick-SameIdentity,
}
use metroflow_ai_backend.Election.Elector.Fleet.{Fleet, at, become}

module _ {Name Holder Text : Type 0} (dec : Discrete Name) (dec_holder : Discrete Holder)
    (redis : Redis Name Holder) (key : Name) (lease : ℕ) (holder : ℕ → Holder)
    (apart : (i j : ℕ) → holder i ≡ holder j → i ≡ j) where
  open redis use {Server, get}

  -- The configuration of process `i`: the common key and lease, and a holder id of its own.
  pub record Configured (i : ℕ) (e : Elector Name Holder Text) : Type 0 where
    pub lock_key : e.lock_key ≡ key
    pub holder_id : e.holder_id ≡ holder i
    pub lease_seconds : e.lease_seconds ≡ lease

  -- Process `i` runs a worker without the local lock, that is by the lease, on a heartbeat that is
  -- younger than the lease at time `t`.
  pub record Fresh (i t : ℕ) (e : Elector Name Holder Text) (p : Process Name Holder) : Type 0 where
    pub active : is_active e ≡ true
    pub by_lease : is_held dec dec_holder e.name (some e.holder_id) p ≡ false
    pub heartbeat : ℕ
    pub beat : e.last_heartbeat_ts ≡ some heartbeat
    pub within : t < heartbeat + seconds lease

  -- Every process is configured, and Redis names each one that is fresh for as long as it is.
  pub record IsGuarded (f : Fleet Name Holder Text Server) : Type 0 where
    pub configured : (i : ℕ) → Configured i (f.node i).elector
    pub guarded :
        (i t : ℕ)
        → Fresh i t (f.node i).elector (f.node i).process
        → f.clock ≤ t
        → get t key f.server ≡ some (holder i)

  -- What a step of process `i` to `n` at a time has to show.
  pub record Keeps (f : Fleet Name Holder Text Server) (i now : ℕ)
      (n : Node Name Holder Text Server) : Type 0 where
    pub later : f.clock ≤ now
    pub config : Configured i n.elector
    pub own :
        (t : ℕ)
        → Fresh i t n.elector n.process
        → now ≤ t
        → get t key n.cache.server ≡ some (holder i)
    pub foreign :
        (other : Holder)
        → get now key f.server ≡ some other
        → other ≢ holder i
        → n.cache.server ≡ f.server

  earlier :
      (i now t : ℕ) (e : Elector Name Holder Text) (p : Process Name Holder)
      → Fresh i t e p
      → now ≤ t
      → Fresh i now e p
  earlier i now t e p fresh le = record {
    active = fresh.active;
    by_lease = fresh.by_lease;
    heartbeat = fresh.heartbeat;
    beat = fresh.beat;
    within = omega arith;
  }

  pub become-IsGuarded :
      (f : Fleet Name Holder Text Server) (i now : ℕ) (n : Node Name Holder Text Server)
      → IsGuarded f
      → Keeps f i now n
      → IsGuarded (become f i now n)
  become-IsGuarded f i now n h k = record {
    configured = λ j. elim (ℕ_discrete i j) as (λ d. Configured j (ite d n (f.node j)).elector) [
      | yes e ↦ subst (λ m. Configured m n.elector) e k.config
      | no ne ↦ h.configured j
    ];
    guarded = λ j t fresh le.
        (elim (ℕ_discrete i j)
            as (λ d.
              Fresh j t (ite d n (f.node j)).elector (ite d n (f.node j)).process
              → get t key n.cache.server ≡ some (holder j)) [
                | yes e ↦
                    subst
                      (λ m.
                        Fresh m t n.elector n.process → get t key n.cache.server ≡ some (holder m))
                      e (λ fr. k.own t fr le)
                | no ne ↦ λ fr.
                    let before =
                      h.guarded j now (earlier j now t (f.node j).elector (f.node j).process fr le)
                        k.later in
                    let same = k.foreign (holder j) before (λ e. ne (sym (apart j i e))) in
                    rw same (h.guarded j t fr (le_trans k.later le))
              ])
          fresh;
  }

  pub config_kept :
      (i : ℕ) (e e' : Elector Name Holder Text)
      → Configured i e
      → SameIdentity e e'
      → Configured i e'
  config_kept i e e' c s = record {
    lock_key = s.lock_key ∙ c.lock_key;
    holder_id = s.holder_id ∙ c.holder_id;
    lease_seconds = s.lease_seconds ∙ c.lease_seconds;
  }

  -- A node that stays as it is.
  pub Keeps-self :
      (f : Fleet Name Holder Text Server) (i now : ℕ)
      → f.clock ≤ now
      → IsGuarded f
      → Keeps f i now (at f i)
  Keeps-self f i now later h = record {
    later = later;
    config = h.configured i;
    own = λ t fresh le. h.guarded i t fresh (le_trans later le);
    foreign = λ other _ _. refl;
  }

  lease_tick-Keeps :
      (f : Fleet Name Holder Text Server) (i : ℕ) (env : Env Text) (calls : Calls)
      → f.clock ≤ env.now
      → GoesByLease dec dec_holder redis env calls (at f i)
      → IsGuarded f
      → Keeps f i env.now (election_tick dec dec_holder redis env calls (at f i)).1
  lease_tick-Keeps f i env calls later path h =
      let n = at f i in
      let n' = (election_tick dec dec_holder redis env calls n).1 in
      let c : Configured i (seen dec dec_holder redis env calls n).elector =
        config_kept i n.elector _ (h.configured i)
          (seen-SameIdentity dec dec_holder redis env calls n) in
      record {
        later = later;
        config =
            config_kept i n.elector n'.elector (h.configured i)
              (tick-SameIdentity dec dec_holder redis env calls n);
        own = λ t fresh le.
            let (held, beat) = tick-Holds dec dec_holder redis env calls n path fresh.active in
            let same : fresh.heartbeat ≡ env.now = cc (beat, fresh.beat) in
            let ends : t
                < env.now + seconds (seen dec dec_holder redis env calls n).elector.lease_seconds =
              rw c.lease_seconds (omega (arith, same, fresh.within)) in
            cc (held t le ends, c.lock_key, c.holder_id);
        foreign = λ other taken ne.
            tick_foreign dec dec_holder redis env calls n other path (rw c.lock_key taken)
              (rw c.holder_id ne);
      }

  local_tick-Keeps :
      (f : Fleet Name Holder Text Server) (i : ℕ) (env : Env Text) (calls : Calls)
      → f.clock ≤ env.now
      → GoesLocal dec dec_holder redis env calls (at f i)
      → IsGuarded f
      → Keeps f i env.now (election_tick dec dec_holder redis env calls (at f i)).1
  local_tick-Keeps f i env calls later path h =
      let n = at f i in
      let n' = (election_tick dec dec_holder redis env calls n).1 in
      let (same, held) = tick_local dec dec_holder redis env calls n path in
      record {
        later = later;
        config =
            config_kept i n.elector n'.elector (h.configured i)
              (tick-SameIdentity dec dec_holder redis env calls n);
        own = λ t fresh le. cc (held fresh.active, fresh.by_lease);
        foreign = λ other taken ne. same;
      }

  pub tick-Keeps :
      (f : Fleet Name Holder Text Server) (i : ℕ) (env : Env Text) (calls : Calls)
      → f.clock ≤ env.now
      → IsGuarded f
      → Keeps f i env.now (election_tick dec dec_holder redis env calls (at f i)).1
  tick-Keeps f i env calls later h =
      let n = at f i in
      elim (Bool-cases (
        goes_local env.now (look dec dec_holder redis env calls n).0
          (seen dec dec_holder redis env calls n).elector)) [
            | inl path ↦ local_tick-Keeps f i env calls later path h
            | inr path ↦ lease_tick-Keeps f i env calls later path h
          ]
