-- ===== src/Cache/Local/Reads.antt =====
-- What can be read from the local store after a write, and what a write pushes out.
use metroflow_ai_backend.Common.{
  ℕ, suc, ◌+◌, ◌≤◌, ◌≡◌, refl, true, Option, none, some, List, [], ◌∷◌, ◌++◌, length, length-append,
  arith, if◌then◌else◌, leb, ◌==◌,
}
use metroflow_ai_backend.Common.Dict.{
  Dict, lookup, insert, erase, HasDistinct, lookup-insert_self, lookup-erase_self, lookup-append,
  insert-HasDistinct,
}
use metroflow_ai_backend.Cache.Local.{
  Entry, local_cache_max_entries, seconds, expiry, has_expired, evict, move_to_end, local_get_raw,
  store, local_set_raw, holds_live, local_set_nx, local_delete,
}
use metroflow_ai_backend.Cache.Local.Bounds.{IsValid}

evict_fits {ℓ} : {A : Type ℓ} (bound : ℕ) (d : List A) → length d ≤ bound → evict bound d ≡ d
unfolding evict
evict_fits bound [] h = refl
evict_fits bound (e ∷ d) h = ground (arith, evict_fits bound d)

module _ {K Raw : Type 0} (dec : Discrete K) (k : K) (e : Entry Raw) where
  evict_keeps_last :
      (bound : ℕ) (d : Dict K (Entry Raw))
      → lookup dec k d ≡ none
      → lookup dec k (evict (suc bound) (d ++ (k, e) ∷ [])) ≡ some e
  unfolding evict lookup
  evict_keeps_last bound [] h = ground arith
  evict_keeps_last bound ((i, w) ∷ d) h = ground (
    arith,
    length-append d ((k, e) ∷ []),
    evict_keeps_last bound d,
    lookup-append dec k d ((k, e) ∷ []),
  )

  insert_absent :
      (d : Dict K (Entry Raw)) → lookup dec k d ≡ none → insert dec k e d ≡ d ++ (k, e) ∷ []
  unfolding insert lookup
  insert_absent [] h = refl
  insert_absent ((i, w) ∷ d) h = ground (arith, insert_absent d)

  erase_last : (d : Dict K (Entry Raw)) → lookup dec k d ≡ none → erase dec k (d ++ (k, e) ∷ []) ≡ d
  unfolding erase lookup
  erase_last [] h = ground arith
  erase_last ((i, w) ∷ d) h = ground (arith, erase_last d)

  -- A write moves the key to the end, before the eviction.
  move_to_end-insert :
      (d : Dict K (Entry Raw))
      → move_to_end dec k (insert dec k e d) ≡ erase dec k (insert dec k e d) ++ (k, e) ∷ []
  unfolding move_to_end
  move_to_end-insert d = rw (lookup-insert_self dec k e d, move_to_end) refl

  pub lookup-store_self :
      (d : Dict K (Entry Raw)) → HasDistinct dec d → lookup dec k (store dec k e d) ≡ some e
  unfolding store
  lookup-store_self d h = rw (move_to_end-insert d) (
      evict_keeps_last 4999 (erase dec k (insert dec k e d))
        (lookup-erase_self dec k (insert dec k e d) (insert-HasDistinct dec k e d h)))

  store_absent :
      (d : Dict K (Entry Raw))
      → lookup dec k d ≡ none
      → store dec k e d ≡ evict local_cache_max_entries (d ++ (k, e) ∷ [])
  unfolding store
  store_absent d h = rw (move_to_end-insert d, insert_absent d h, erase_last d h) refl

  -- A new key in a full store pushes out exactly the least recently used entry, the first, and
  -- keeps all others in their order; in a store with room nothing is pushed out.
  pub store_evicts_oldest :
      (x : K × Entry Raw) (d : Dict K (Entry Raw))
      → lookup dec k (x ∷ d) ≡ none
      → length (x ∷ d) ≤ local_cache_max_entries
      → store dec k e (x ∷ d) ≡ (
          if length (x ∷ d) == local_cache_max_entries
          then d ++ (k, e) ∷ []
          else x ∷ (d ++ (k, e) ∷ []))
  unfolding evict
  store_evicts_oldest x d h fits = rw (store_absent (x ∷ d) h) (
      ground (
        arith,
        length-append d ((k, e) ∷ []),
        evict_fits local_cache_max_entries (d ++ (k, e) ∷ []),
      ))

module _ {K Raw : Type 0} (dec : Discrete K) (now : ℕ) (k : K) (raw : Raw) where
  -- After a write to a valid store, a read of the key returns what was written until its expiry,
  -- and nothing from then on; an entry with no time to live never expires.
  pub local_get_raw-local_set_raw :
      (later : ℕ) (ttl : Option ℕ) (d : Dict K (Entry Raw))
      → IsValid dec d
      → (local_get_raw dec later k (local_set_raw dec now k raw ttl d)).0
        ≡ (if has_expired later (expiry now ttl) then none else some raw)
  unfolding local_get_raw local_set_raw
  local_get_raw-local_set_raw later ttl d h =
      rw (lookup-store_self dec k (raw, expiry now ttl) d h.distinct, local_get_raw) (ground arith)

  -- A conditional write that succeeds keeps out every other one for the same key until its time
  -- to live is over, and no longer.
  pub local_set_nx_excludes :
      (later ttl ttl' : ℕ) (raw' : Raw) (d : Dict K (Entry Raw))
      → IsValid dec d
      → (local_set_nx dec now k raw ttl d).0 ≡ true
      → (local_set_nx dec later k raw' ttl' (local_set_nx dec now k raw ttl d).1).0
        ≡ leb (now + seconds ttl) later
  unfolding local_set_nx holds_live
  local_set_nx_excludes later ttl ttl' raw' d h won =
      ground (arith, lookup-store_self dec k (raw, some (now + seconds ttl)) d h.distinct)

module _ {K Raw : Type 0} (dec : Discrete K) where
  pub local_get_raw-local_delete :
      (later : ℕ) (k : K) (d : Dict K (Entry Raw))
      → IsValid dec d
      → (local_get_raw dec later k (local_delete dec k d)).0 ≡ none
  unfolding local_get_raw local_delete
  local_get_raw-local_delete later k d h =
      rw (lookup-erase_self dec k d h.distinct, local_get_raw) refl
