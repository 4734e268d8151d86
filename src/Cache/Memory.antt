-- ===== src/Cache/Memory.antt =====
-- A Redis server in memory, for keys and texts that are numbers: an instance of the interface.
use metroflow_ai_backend.Common.{
  ℕ, ◌≤◌, ◌≡◌, ◌≢◌, refl, Bool, true, false, Option, none, some, arith, if◌then◌else◌, ite, is_some,
  ℕ_discrete,
}
use metroflow_ai_backend.Cache.Local.{Entry, expiry, has_expired}
use metroflow_ai_backend.Cache.Redis.{Redis}

abbrev pub Memory : Type 0
Memory = ℕ → Option (Entry ℕ)

abbrev pub read : ℕ → Option (Entry ℕ) → Option ℕ
read now none = none
read now (some (raw, expires_at)) = if has_expired now expires_at then none else some raw

abbrev pub memory_get : ℕ → ℕ → Memory → Option ℕ
memory_get now k s = read now (s k)

abbrev pub memory_set : ℕ → ℕ → ℕ → Option ℕ → Memory → Memory
memory_set now k raw ttl s j = ite (ℕ_discrete k j) (some (raw, expiry now ttl)) (s j)

abbrev pub memory_del : ℕ → Memory → Memory
memory_del k s j = ite (ℕ_discrete k j) none (s j)

abbrev pub memory_set_nx : ℕ → ℕ → ℕ → ℕ → Memory → Bool × Memory
memory_set_nx now k raw ttl s =
    if is_some (memory_get now k s) then (false, s) else (true, memory_set now k raw (some ttl) s)

pub memory_get-set :
    (now later : ℕ) (k : ℕ) (raw : ℕ) (ttl : Option ℕ) (s : Memory)
    → now ≤ later
    → memory_get later k (memory_set now k raw ttl s)
      ≡ (if has_expired later (expiry now ttl) then none else some raw)
memory_get-set now later k raw ttl s h = ground arith

pub memory_get-set_ne :
    (now later : ℕ) (k j : ℕ) (raw : ℕ) (ttl : Option ℕ) (s : Memory)
    → k ≢ j
    → memory_get later j (memory_set now k raw ttl s) ≡ memory_get later j s
memory_get-set_ne now later k j raw ttl s h = ground arith

pub memory_get-del : (now k : ℕ) (s : Memory) → memory_get now k (memory_del k s) ≡ none
memory_get-del now k s = ground arith

pub memory_get-del_ne :
    (now k j : ℕ) (s : Memory) → k ≢ j → memory_get now j (memory_del k s) ≡ memory_get now j s
memory_get-del_ne now k j s h = ground arith

abbrev pub memory : Redis ℕ ℕ
memory = record {
  Server = Memory;
  get = memory_get;
  set = memory_set;
  set_nx = memory_set_nx;
  del = memory_del;
  get-set = memory_get-set;
  get-set_ne = memory_get-set_ne;
  set_nx_lem = λ now k raw ttl s. refl;
  get-del = memory_get-del;
  get-del_ne = memory_get-del_ne;
}
