-- ===== src/Cache/Redis.antt =====
-- What the code relies on of a Redis server: an interface, which the model takes as a parameter.
-- Times are the server's, in milliseconds.
use metroflow_ai_backend.Common.{
  ℕ, ◌≤◌, ◌≡◌, ◌≢◌, Bool, true, false, Option, none, some, if◌then◌else◌, is_some,
}
use metroflow_ai_backend.Cache.Local.{expiry, has_expired}

pub record Redis (K Raw : Type 0) : Type 1 where
  pub Server : Type 0
  -- GET
  pub get : ℕ → K → Server → Option Raw
  -- SET, with EX where a time to live is given
  pub set : ℕ → K → Raw → Option ℕ → Server → Server
  -- SET with NX and EX
  pub set_nx : ℕ → K → Raw → ℕ → Server → Bool × Server
  -- DEL
  pub del : K → Server → Server
  pub get-set :
      (now later : ℕ) (k : K) (raw : Raw) (ttl : Option ℕ) (s : Server)
      → now ≤ later
      → get later k (set now k raw ttl s)
        ≡ (if has_expired later (expiry now ttl) then none else some raw)
  pub get-set_ne :
      (now later : ℕ) (k j : K) (raw : Raw) (ttl : Option ℕ) (s : Server)
      → k ≢ j
      → get later j (set now k raw ttl s) ≡ get later j s
  pub set_nx_lem :
      (now : ℕ) (k : K) (raw : Raw) (ttl : ℕ) (s : Server)
      → set_nx now k raw ttl s
        ≡ (if is_some (get now k s) then (false, s) else (true, set now k raw (some ttl) s))
  pub get-del : (now : ℕ) (k : K) (s : Server) → get now k (del k s) ≡ none
  pub get-del_ne : (now : ℕ) (k j : K) (s : Server) → k ≢ j → get now j (del k s) ≡ get now j s

-- What becomes of one command: it is carried out and answered, it never arrives, or it is carried
-- out and the answer is lost. In the last two the client library raises.
pub data Link : Type 0 where
  answered refused lost : Link

-- A command over the link: its answer, or `none` where the call raises.
abbrev pub ask {ℓ} : {A : Type ℓ} {S : Type 0} → Link → A × S → S → Option A × S
ask answered (a, s') s = (some a, s')
ask refused r s = (none, s)
ask lost (a, s') s = (none, s')
