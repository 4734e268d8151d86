-- ===== src/Cache/Lease/Exclusion.antt =====
-- The lease excludes: while one holder's lease runs, no other process takes or frees it.
use metroflow_ai_backend.Common.{
  ℕ, ◌+◌, ◌≤◌, ◌<◌, ◌≡◌, ◌≢◌, Bool, true, false, List, [], ◌∷◌, some, arith, All,
}
use metroflow_ai_backend.Cache.Local.{seconds}
use metroflow_ai_backend.Cache.Redis.{Redis}
use metroflow_ai_backend.Cache.Json.{Env, World}
use metroflow_ai_backend.Cache.Lease.{try_acquire_or_renew_lock, release_lock}

-- A call for the lock by some process: the environment it meets, its holder id, its lease time.
pub data Attempt (Raw Error : Type 0) : Type 0 where
  acquire : Env Error → Raw → ℕ → Attempt Raw Error
  release : Env Error → Raw → Attempt Raw Error

module _ {Raw Error : Type 0} where
  abbrev pub time : Attempt Raw Error → ℕ
  time (acquire env _ _) = env.now
  time (release env _) = env.now

  abbrev pub caller : Attempt Raw Error → Raw
  caller (acquire _ other _) = other
  caller (release _ other) = other

  -- Calls of processes other than `holder`, one after another, all before `until`.
  abbrev pub Others : Raw → ℕ → ℕ → List (Attempt Raw Error) → Type 0
  Others holder from until [] = Unit
  Others holder from until (a ∷ rest) =
      (holder ≢ caller a) × (from ≤ time a) × (time a < until) × Others holder (time a) until rest

module _ {K Raw : Type 0} (redis : Redis K Raw) where
  open redis use {Server, get}

  -- The key belongs to the holder from one time up to another.
  abbrev pub Holds : K → Raw → ℕ → ℕ → Server → Type 0
  Holds key holder from until s = (t : ℕ) → from ≤ t → t < until → get t key s ≡ some holder

module _ {K Raw Error : Type 0} (dec : Discrete Raw) (redis : Redis K Raw) (key : K) where
  open redis use {Server, get-set}

  perform : Attempt Raw Error → World K Raw Error Server → Bool × World K Raw Error Server
  perform (acquire env other ttl) = try_acquire_or_renew_lock dec redis env key other ttl
  perform (release env other) = release_lock dec redis env key other

  -- The calls in turn: their results, and the world after the last.
  unfoldable pub perform_all :
      List (Attempt Raw Error) → World K Raw Error Server → List Bool × World K Raw Error Server
  unfolding perform
  perform_all [] w = ([], w)
  perform_all (a ∷ rest) w =
      let (r, w') = perform a w in let (rs, w'') = perform_all rest w' in (r ∷ rs, w'')

  pub try_acquire_or_renew_lock-Holds :
      (env : Env Error) (holder : Raw) (ttl : ℕ) (w : World K Raw Error Server)
      → (try_acquire_or_renew_lock dec redis env key holder ttl w).0 ≡ true
      → Holds redis key holder env.now
          (env.now + seconds ttl)
          (try_acquire_or_renew_lock dec redis env key holder ttl w).1.server
  unfolding try_acquire_or_renew_lock
  try_acquire_or_renew_lock-Holds env holder ttl w won t from before =
      ground (arith, get-set env.now t key holder (some ttl) w.server from)

  -- A call of another process inside a running lease fails and leaves the lease.
  perform-Holds :
      (a : Attempt Raw Error) (holder : Raw) (from until : ℕ) (w : World K Raw Error Server)
      → holder ≢ caller a
      → Holds redis key holder from until w.server
      → from ≤ time a
      → time a < until
      → ((perform a w).0 ≡ false) × Holds redis key holder (time a) until (perform a w).1.server
  unfolding perform try_acquire_or_renew_lock release_lock
  perform-Holds (acquire env other ttl) holder from until w ne held start before = (
    ground (arith, held env.now start before),
    λ t later ends. ground (arith, held env.now start before, held t),
  )
  perform-Holds (release env other) holder from until w ne held start before = (
    ground (arith, held env.now start before),
    λ t later ends. ground (arith, held env.now start before, held t),
  )

  perform_all-Holds :
      (attempts : List (Attempt Raw Error)) (holder : Raw) (from until t : ℕ)
      (w : World K Raw Error Server)
      → Others holder from until attempts
      → Holds redis key holder from until w.server
      → All (λ a. time a ≤ t) attempts
      → from ≤ t
      → t < until
      → All (λ r. r ≡ false) (perform_all attempts w).0
        × (redis.get t key (perform_all attempts w).1.server ≡ some holder)
  unfolding perform_all
  perform_all-Holds [] holder from until t w others held after start ends = (tt, held t start ends)
  perform_all-Holds (a ∷ rest) holder from until t w (ne, start, before, others) held after _ ends =
      let (failed, kept) = perform-Holds a holder from until w ne held start before in
      let (all_failed, still) =
        perform_all-Holds rest holder (time a) until t (perform a w).1 others kept after.1 after.0
          ends in
      ((failed, all_failed), still)

  -- Mutual exclusion: once a process has won the lease, every call of other processes within
  -- `ttl` seconds, to take or to release the lock, over working and failing links, returns false,
  -- and Redis still names the winner at every time within the lease that is not before a call.
  pub lease_excludes :
      (env : Env Error) (holder : Raw) (ttl t : ℕ) (attempts : List (Attempt Raw Error))
      (w : World K Raw Error Server)
      → (try_acquire_or_renew_lock dec redis env key holder ttl w).0 ≡ true
      → Others holder env.now (env.now + seconds ttl) attempts
      → All (λ a. time a ≤ t) attempts
      → env.now ≤ t
      → t < env.now + seconds ttl
      → let w' = (try_acquire_or_renew_lock dec redis env key holder ttl w).1 in
        All (λ r. r ≡ false) (perform_all attempts w').0
        × (redis.get t key (perform_all attempts w').1.server ≡ some holder)
  lease_excludes env holder ttl t attempts w won others after start ends =
      perform_all-Holds attempts holder env.now (env.now + seconds ttl) t
        (try_acquire_or_renew_lock dec redis env key holder ttl w).1 others
        (try_acquire_or_renew_lock-Holds env holder ttl w won) after start ends
