-- ===== src/Cache/Json.antt =====
-- The JSON calls of app/core/cache.py: Redis first, the local store when Redis cannot be reached.
pub mod Fallback
use metroflow_ai_backend.Common.{ℕ, Bool, true, false, Option, none, some, if◌then◌else◌, is_some}
use metroflow_ai_backend.Common.Dict.{Dict}
use metroflow_ai_backend.Cache.Local.{
  Entry, local_get_raw, local_set_raw, local_set_nx, local_delete,
}
use metroflow_ai_backend.Cache.Client.{Client, mark_down, get_client}
use metroflow_ai_backend.Cache.Redis.{Redis, Link, ask}

-- What one call meets: the settings, the clock, what a ping would say, and the link.
pub record Env (Error : Type 0) : Type 0 where
  pub enabled : Bool
  pub now : ℕ
  pub ping : Option Error
  pub link : Link
  pub exc : Error

-- The module's globals, and the Redis server beside them.
pub record World (K Raw Error Server : Type 0) : Type 0 where
  pub local : Dict K (Entry Raw)
  pub client : Client Error
  pub server : Server

-- `json.dumps(value, default=str)`, `json.loads` (`none` where it raises) and the text "1".
pub record Codec (Raw Value : Type 0) : Type 0 where
  pub dumps : Value → Raw
  pub loads : Raw → Option Value
  pub one : Raw

-- The end of `get_json`: nothing for a missing or a malformed text.
abbrev pub decode {ℓ} : {Raw Value : Type ℓ} → (Raw → Option Value) → Option Raw → Option Value
decode loads none = none
decode loads (some raw) = loads raw

module _ {K Raw Error Server : Type 0} where
  -- `_get_client()`, with the state that it leaves.
  abbrev pub reach : Env Error → World K Raw Error Server → Bool × World K Raw Error Server
  reach env w =
      let (up, client) = get_client env.enabled env.now env.ping w.client in
      (up, record w { client = client })

  -- The answer of a command; an exception is passed to `_mark_down`.
  abbrev pub command :
      {A : Type 0}
      → Env Error
      → (Server → A × Server)
      → World K Raw Error Server
      → Option A × World K Raw Error Server
  command env f w =
      let (reply, server) = ask env.link (f w.server) w.server in
      elim reply [
        | some a ↦ (some a, record w { server = server })
        | none ↦ (none, record w { server = server; client = mark_down env.now env.exc w.client })
      ]

module _ {K Raw Error Value : Type 0} (dec : Discrete K) (redis : Redis K Raw)
    (codec : Codec Raw Value) where
  open redis use {Server, get, set, set_nx as server_set_nx, del}
  open codec use {dumps, loads, one}

  -- `get_json` where there is no client.
  unfoldable pub get_local :
      Env Error → K → World K Raw Error Server → Option Value × World K Raw Error Server
  get_local env key w =
      let (found, local) = local_get_raw dec env.now key w.local in
      elim found [
        | none ↦ (none, record w { local = local })
        | some raw ↦ elim (loads raw) [
          | some value ↦ (some value, record w { local = local })
          | none ↦ (none, record w { local = local_delete dec key local })
        ]
      ]

  -- `get_json` where there is one.
  unfoldable pub get_remote :
      Env Error → K → World K Raw Error Server → Option Value × World K Raw Error Server
  get_remote env key w =
      let (reply, w') = command env (λ s. (get env.now key s, s)) w in
      elim reply [
        | some found ↦ (decode loads found, w')
        | none ↦
            let (found, local) = local_get_raw dec env.now key w'.local in
            (decode loads found, record w' { local = local })
      ]

  unfoldable pub get_json :
      Env Error → K → World K Raw Error Server → Option Value × World K Raw Error Server
  unfolding get_local get_remote
  get_json env key w =
      let (up, w') = reach env w in if up then get_remote env key w' else get_local env key w'

  -- The Redis half of a write: nothing without a client.
  unfoldable pub write_through :
      Env Error → (Server → Server) → World K Raw Error Server → World K Raw Error Server
  write_through env f w =
      let (up, w') = reach env w in if up then (command env (λ s. (tt {0}, f s)) w').1 else w'

  -- `ttl` is the argument, or `settings.CACHE_TTL_SECONDS` where it is left out.
  unfoldable pub set_json :
      Env Error → K → Value → ℕ → World K Raw Error Server → World K Raw Error Server
  unfolding write_through
  set_json env key value ttl w =
      write_through env (set env.now key (dumps value) (some ttl))
        (record w { local = local_set_raw dec env.now key (dumps value) (some ttl) w.local })

  unfoldable pub set_json_persistent :
      Env Error → K → Value → World K Raw Error Server → World K Raw Error Server
  unfolding write_through
  set_json_persistent env key value w =
      write_through env (set env.now key (dumps value) none)
        (record w { local = local_set_raw dec env.now key (dumps value) none w.local })

  abbrev set_nx_local :
      Env Error → K → ℕ → World K Raw Error Server → Bool × World K Raw Error Server
  set_nx_local env key ttl w =
      let (won, local) = local_set_nx dec env.now key one ttl w.local in
      (won, record w { local = local })

  unfoldable pub set_nx :
      Env Error → K → ℕ → World K Raw Error Server → Bool × World K Raw Error Server
  set_nx env key ttl w =
      let (up, w') = reach env w in
      if up
      then (let (reply, w'') = command env (server_set_nx env.now key one ttl) w' in
          elim reply [ some won ↦ (won, w'') | none ↦ set_nx_local env key ttl w'' ])
      else set_nx_local env key ttl w'

  -- `delete`, and `delete_key`, which calls it.
  unfoldable pub delete : Env Error → K → World K Raw Error Server → World K Raw Error Server
  unfolding write_through
  delete env key w = write_through env (del key) (record w { local = local_delete dec key w.local })
