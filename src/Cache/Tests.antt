-- ===== src/Cache/Tests.antt =====
-- Runs of the cache at concrete inputs, over a Redis server in memory.
use metroflow_ai_backend.Common.{
  ℕ, ◌≡◌, refl, true, false, ◌&&◌, not, none, some, List, [], ◌∷◌, arith, if◌then◌else◌, ◌==◌, All,
  ℕ_discrete,
}
use metroflow_ai_backend.Common.Dict.{Dict, lookup, insert, erase}
use metroflow_ai_backend.Cache.Local.{
  Entry, expiry, has_expired, evict, move_to_end, local_get_raw, store, local_set_raw, holds_live,
  local_set_nx, local_delete,
}
use metroflow_ai_backend.Cache.Client.{Client, initial, backoff_floor, mark_down, get_client}
use metroflow_ai_backend.Cache.Client.Backoff
use metroflow_ai_backend.Cache.Json.{Env, World, Codec, decode, get_json, set_json, set_nx, delete}
use metroflow_ai_backend.Cache.Json.Fallback
use metroflow_ai_backend.Cache.Lease.{try_acquire_or_renew_lock, release_lock}
use metroflow_ai_backend.Cache.Lease.Exclusion
use metroflow_ai_backend.Cache.Local.Bounds
use metroflow_ai_backend.Cache.Memory.{Memory, memory, memory_get}
use metroflow_ai_backend.Cache.Redis.{Link, answered, refused}

-- Errors are numbers here, values are their own JSON texts, and text 0 is malformed.
abbrev codec : Codec ℕ ℕ
codec = record { dumps = λ v. v; loads = λ r. if r == 0 then none else some r; one = 1 }

abbrev down : Client ℕ
down = initial

abbrev up : Client ℕ
up = record initial { connected = true; last_state_connected = some true }

abbrev cold : World ℕ ℕ ℕ Memory
cold = record { local = []; client = up; server = λ _. none }

abbrev at : ℕ → Link → Env ℕ
at now link = record { enabled = true; now = now; ping = none; link = link; exc = 7 }

abbrev two : Dict ℕ (Entry ℕ)
two = (1, (10, none)) ∷ (2, (20, some 9000)) ∷ []

program : Unit {0}
unfolding lookup insert erase evict move_to_end local_get_raw store local_set_raw holds_live
    local_set_nx local_delete mark_down get_client get_json set_json delete set_nx
    try_acquire_or_renew_lock release_lock Exclusion.perform_all ℕ_discrete
program = tt

two-IsValid : Bounds.IsValid ℕ_discrete two
unfolding program
two-IsValid = record { bounded = omega arith; distinct = (refl, (refl, tt)) }

empty-IsValid : Bounds.IsValid {Raw = ℕ} ℕ_discrete []
empty-IsValid = record { bounded = omega arith; distinct = tt }

-- A read refreshes an entry, and the expired one is dropped.
local_reads :
    (local_get_raw ℕ_discrete 100 1 two ≡ (some 10, (2, (20, some 9000)) ∷ (1, (10, none)) ∷ []))
    × (local_get_raw ℕ_discrete 9000 2 two ≡ (none, (1, (10, none)) ∷ []))
unfolding program
local_reads = (refl, refl)

-- A write that Redis refuses is served locally while Redis stays away, and hidden when it answers.
json_reads :
    let w = set_json ℕ_discrete memory codec (at 100 refused) 5 42 30 cold in
    ((get_json ℕ_discrete memory codec (at 200 refused) 5 w).0 ≡ some 42)
    × ((get_json ℕ_discrete memory codec (at 5000 answered) 5 w).0 ≡ none)
unfolding program
json_reads = (refl, refl)

abbrev calls : List (Bounds.Call ℕ ℕ)
calls =
    Bounds.set 0 3 30 (some 5) ∷ Bounds.get 10 1 ∷ Bounds.set_nx 20 1 11 5 ∷ Bounds.delete 2 ∷ []

run-IsValid_example : Bounds.IsValid ℕ_discrete (Bounds.run ℕ_discrete calls two)
run-IsValid_example = Bounds.run-IsValid ℕ_discrete calls two two-IsValid

up-IsValid : Backoff.IsValid up
up-IsValid = record { above = omega arith; below = omega arith; up = λ _. refl }

get_client_recovers_example :
    let down = Backoff.outage ((1100, 7) ∷ (3100, 7) ∷ (7100, 7) ∷ []) (mark_down 100 7 up) in
    let (reached, c) = get_client true 70000 none down in
    (reached ≡ true) × (c.current_backoff ≡ backoff_floor) × (c.last_state_connected ≡ some true)
get_client_recovers_example =
    Backoff.get_client_recovers 100 7100 70000 7 ((1100, 7) ∷ (3100, 7) ∷ (7100, 7) ∷ []) up
      up-IsValid (omega arith) (omega arith, (omega arith, (omega arith, tt))) (omega arith)

get_json-set_json_example :
    let w' = set_json ℕ_discrete memory codec (at 100 refused) 5 42 30 cold in
    (get_json ℕ_discrete memory codec (at 200 refused) 5 w').0 ≡ (
      if Fallback.reads_redis ℕ_discrete memory codec (at 200 refused) w'
        && not (Fallback.writes_redis ℕ_discrete memory codec (at 100 refused) cold)
      then decode codec.loads (memory_get 200 5 (λ _. none))
      else if has_expired 200 (expiry 100 (some 30))
      then none
      else codec.loads 42)
get_json-set_json_example =
    Fallback.get_json-set_json ℕ_discrete memory codec (at 100 refused) (at 200 refused) 5 42 30
      cold empty-IsValid (omega arith)

-- Process 8 holds the lease; process 9 tries to take it and to release it.
abbrev rivals : List (Exclusion.Attempt ℕ ℕ)
rivals = Exclusion.acquire (at 3000 answered) 9 15 ∷ Exclusion.release (at 6000 answered) 9 ∷ []

lease_excludes_example :
    let w' = (try_acquire_or_renew_lock ℕ_discrete memory (at 1000 answered) 5 8 15 cold).1 in
    All (λ r. r ≡ false) (Exclusion.perform_all ℕ_discrete memory 5 rivals w').0
    × (memory_get 15000 5 (Exclusion.perform_all ℕ_discrete memory 5 rivals w').1.server ≡ some 8)
unfolding program
lease_excludes_example =
    Exclusion.lease_excludes ℕ_discrete memory 5 (at 1000 answered) 8 15 15000 rivals cold refl
      (omega arith) (omega arith) (omega arith) (omega arith)
