-- ===== src/Cache/Json/Fallback.antt =====
-- What `get_json` returns after `set_json` and after `delete`, whatever happens to Redis between.
use metroflow_ai_backend.Common.{
  ℕ, ◌≤◌, ◌≡◌, Bool, true, false, ◌&&◌, not, none, some, ◌+◌, arith, if◌then◌else◌, leb,
}
use metroflow_ai_backend.Cache.Local.{seconds, expiry, has_expired}
use metroflow_ai_backend.Cache.Local.Bounds.{IsValid}
use metroflow_ai_backend.Cache.Local.Reads.{
  local_get_raw-local_set_raw, local_get_raw-local_delete, local_set_nx_excludes,
}
use metroflow_ai_backend.Cache.Redis.{Redis, Link, answered, refused, lost}
use metroflow_ai_backend.Cache.Json.{
  Env, World, Codec, decode, reach, get_json, set_json, set_nx, delete,
}

-- The server carries a command out.
abbrev pub is_carried_out : Link → Bool
is_carried_out answered = true
is_carried_out refused = false
is_carried_out lost = true

-- The caller receives its answer.
abbrev pub is_answered : Link → Bool
is_answered answered = true
is_answered refused = false
is_answered lost = false

module _ {K Raw Error Value : Type 0} (dec : Discrete K) (redis : Redis K Raw)
    (codec : Codec Raw Value) where
  open redis use {Server, get, set_nx_lem, get-set, get-del}
  open codec use {dumps, loads, one}

  abbrev pub reads_redis : Env Error → World K Raw Error Server → Bool
  reads_redis env w = (reach env w).0 && is_answered env.link

  abbrev pub writes_redis : Env Error → World K Raw Error Server → Bool
  writes_redis env w = (reach env w).0 && is_carried_out env.link

  -- The complete answer of `get_json` after a `set_json` of the same key, with any failures of
  -- Redis at either call: what Redis held before, if the write did not get there and Redis
  -- answers the read, and otherwise the decoded value until its expiry and nothing afterwards.
  pub get_json-set_json :
      (env later : Env Error) (k : K) (v : Value) (ttl : ℕ) (w : World K Raw Error Server)
      → IsValid dec w.local
      → env.now ≤ later.now
      → let w' = set_json dec redis codec env k v ttl w in
        (get_json dec redis codec later k w').0 ≡ (
          if reads_redis later w' && not (writes_redis env w)
          then decode loads (get later.now k w.server)
          else if has_expired later.now (expiry env.now (some ttl))
          then none
          else loads (dumps v))
  unfolding get_json set_json
  get_json-set_json env later k v ttl w h order = ground (
    arith,
    local_get_raw-local_set_raw dec env.now k (dumps v) later.now (some ttl) w.local h,
    get-set env.now later.now k (dumps v) (some ttl) w.server order,
  )

  -- The complete answer of `get_json` after a `delete` of the same key: the old value, if the
  -- deletion did not get to Redis and Redis answers the read, and otherwise nothing.
  pub get_json-delete :
      (env later : Env Error) (k : K) (w : World K Raw Error Server)
      → IsValid dec w.local
      → let w' = delete dec redis codec env k w in
        (get_json dec redis codec later k w').0 ≡ (
          if reads_redis later w' && not (writes_redis env w)
          then decode loads (get later.now k w.server)
          else none)
  unfolding get_json delete
  get_json-delete env later k w h =
      ground
        (arith, local_get_raw-local_delete dec later.now k w.local h, get-del later.now k w.server)

  -- `set_nx` is a lock: once a call has won, and as long as the same side, Redis or the local
  -- store, serves the next call for the key, that call wins only when the time to live is over.
  pub set_nx_excludes :
      (env later : Env Error) (k : K) (ttl ttl' : ℕ) (w : World K Raw Error Server)
      → IsValid dec w.local
      → env.now ≤ later.now
      → (set_nx dec redis codec env k ttl w).0 ≡ true
      → reads_redis later (set_nx dec redis codec env k ttl w).1 ≡ reads_redis env w
      → (set_nx dec redis codec later k ttl' (set_nx dec redis codec env k ttl w).1).0
        ≡ leb (env.now + seconds ttl) later.now
  unfolding set_nx
  set_nx_excludes env later k ttl ttl' w h order won same = ground (
    arith,
    local_set_nx_excludes dec env.now k one later.now ttl ttl' one w.local h,
    set_nx_lem env.now k one ttl w.server,
    set_nx_lem later.now k one ttl' (redis.set env.now k one (some ttl) w.server),
    get-set env.now later.now k one (some ttl) w.server order,
  )
