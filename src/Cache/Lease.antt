-- ===== src/Cache/Lease.antt =====
-- The lease of app/core/cache.py: the two Lua scripts, which Redis runs atomically, and the calls
-- that send them.
pub mod Exclusion
use metroflow_ai_backend.Common.{ℕ, Bool, true, false, Option, none, some, ite, if◌then◌else◌}
use metroflow_ai_backend.Cache.Redis.{Redis}
use metroflow_ai_backend.Cache.Json.{Env, World, reach, command}

module _ {K Raw : Type 0} (dec : Discrete Raw) (redis : Redis K Raw) where
  open redis use {Server, get, set, del}

  -- `_ACQUIRE_OR_RENEW_LOCK_SCRIPT`
  unfoldable pub acquire_or_renew_lock_script : ℕ → K → Raw → ℕ → Server → Bool × Server
  acquire_or_renew_lock_script now key holder ttl s = elim (get now key s) [
    | none ↦ (true, set now key holder (some ttl) s)
    | some current ↦ ite (dec current holder) (true, set now key holder (some ttl) s) (false, s)
  ]

  -- `_RELEASE_LOCK_SCRIPT`
  unfoldable pub release_lock_script : ℕ → K → Raw → Server → Bool × Server
  release_lock_script now key holder s = elim (get now key s) [
    | none ↦ (false, s)
    | some current ↦ ite (dec current holder) (true, del key s) (false, s)
  ]

  module _ {Error : Type 0} where
    -- A script that cannot be sent, or whose answer is lost, counts as refused.
    abbrev pub eval_script :
        Env Error
        → (Server → Bool × Server)
        → World K Raw Error Server
        → Bool × World K Raw Error Server
    eval_script env script w =
        let (up, w') = reach env w in
        if up
        then (let (reply, w'') = command env script w' in
            elim reply [ some result ↦ (result, w'') | none ↦ (false, w'') ])
        else (false, w')

    unfoldable pub try_acquire_or_renew_lock :
        Env Error → K → Raw → ℕ → World K Raw Error Server → Bool × World K Raw Error Server
    unfolding acquire_or_renew_lock_script
    try_acquire_or_renew_lock env key holder ttl =
        eval_script env (acquire_or_renew_lock_script env.now key holder ttl)

    unfoldable pub release_lock :
        Env Error → K → Raw → World K Raw Error Server → Bool × World K Raw Error Server
    unfolding release_lock_script
    release_lock env key holder = eval_script env (release_lock_script env.now key holder)
