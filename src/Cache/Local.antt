-- ===== src/Cache/Local.antt =====
-- `_local_cache` of app/core/cache.py: an `OrderedDict` from keys to raw texts with an expiry,
-- least recently used first. Clock readings are milliseconds.
pub mod Bounds
pub mod Reads
use metroflow_ai_backend.Common.{
  ℕ, ◌+◌, ◌*◌, Bool, true, false, Option, none, some, List, [], ◌∷◌, ◌++◌, length, ltb, leb,
  if◌then◌else◌, is_some,
}
use metroflow_ai_backend.Common.Dict.{Dict, lookup, insert, erase}

-- `_LOCAL_CACHE_MAX_ENTRIES`
abbrev pub local_cache_max_entries : ℕ
local_cache_max_entries = 5000

-- A number of seconds on the clock of the model.
abbrev pub seconds : ℕ → ℕ
seconds s = s * 1000

-- The raw text and `expires_at`, which is `None` for what never expires.
abbrev pub Entry : Type 0 → Type 0
Entry Raw = Raw × Option ℕ

-- `expires_at is not None and expires_at <= now`
abbrev pub has_expired : ℕ → Option ℕ → Bool
has_expired now none = false
has_expired now (some expires_at) = leb expires_at now

-- `now + ttl_seconds if ttl_seconds is not None else None`
abbrev pub expiry : ℕ → Option ℕ → Option ℕ
expiry now none = none
expiry now (some ttl) = some (now + seconds ttl)

-- `while len(d) > max: d.popitem(last=False)`
unfoldable pub evict {ℓ} : {A : Type ℓ} → ℕ → List A → List A
evict bound [] = []
evict bound (e ∷ d) = let rest = evict bound d in if ltb bound (length (e ∷ d)) then rest else e ∷ d

module _ {K Raw : Type 0} (dec : Discrete K) where
  -- `d.move_to_end(key)`, for a key that is there.
  unfoldable pub move_to_end : K → Dict K (Entry Raw) → Dict K (Entry Raw)
  move_to_end key d = elim (lookup dec key d) [
    | none ↦ d
    | some e ↦ erase dec key d ++ (key, e) ∷ []
  ]

  unfoldable pub local_get_raw : ℕ → K → Dict K (Entry Raw) → Option Raw × Dict K (Entry Raw)
  local_get_raw now key d = elim (lookup dec key d) [
    | none ↦ (none, d)
    | some (raw, expires_at) ↦
        if has_expired now expires_at
        then (none, erase dec key d)
        else (some raw, move_to_end key d)
  ]

  -- `_local_cache[key] = entry`, then `move_to_end`, then the eviction loop.
  unfoldable pub store : K → Entry Raw → Dict K (Entry Raw) → Dict K (Entry Raw)
  store key e d = evict local_cache_max_entries (move_to_end key (insert dec key e d))

  unfoldable pub local_set_raw : ℕ → K → Raw → Option ℕ → Dict K (Entry Raw) → Dict K (Entry Raw)
  local_set_raw now key raw ttl d = store key (raw, expiry now ttl) d

  -- `entry is not None and (expires_at is None or expires_at > now)`
  unfoldable pub holds_live : ℕ → K → Dict K (Entry Raw) → Bool
  holds_live now key d = elim (lookup dec key d) [
    | none ↦ false
    | some (_, expires_at) ↦ if has_expired now expires_at then false else true
  ]

  unfoldable pub local_set_nx : ℕ → K → Raw → ℕ → Dict K (Entry Raw) → Bool × Dict K (Entry Raw)
  local_set_nx now key raw ttl d =
      if holds_live now key d
      then (false, d)
      else (true, store key (raw, some (now + seconds ttl)) d)

  unfoldable pub local_delete : K → Dict K (Entry Raw) → Dict K (Entry Raw)
  local_delete key d = erase dec key d
