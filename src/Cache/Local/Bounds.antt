-- ===== src/Cache/Local/Bounds.antt =====
-- The local store never outgrows its bound and never holds a key twice.
use metroflow_ai_backend.Common.{
  ℕ, ◌+◌, ◌≤◌, ◌≡◌, refl, Option, none, some, List, [], ◌∷◌, ◌++◌, length, length-append, arith,
  inl, inr, Option-cases,
}
use metroflow_ai_backend.Common.Dict.{
  Dict, lookup, insert, erase, HasDistinct, lookup-erase_self, lookup-append, insert-HasDistinct,
  erase-HasDistinct, length-erase-le,
}
use metroflow_ai_backend.Cache.Local.{
  Entry, local_cache_max_entries, evict, move_to_end, local_get_raw, store, local_set_raw,
  local_set_nx, local_delete, seconds, expiry,
}

pub length-evict-le {ℓ} : {A : Type ℓ} (bound : ℕ) (d : List A) → length (evict bound d) ≤ bound
unfolding evict
length-evict-le bound [] = omega arith
length-evict-le bound (e ∷ d) = ground (arith, length-evict-le bound d)

module _ {K Raw : Type 0} (dec : Discrete K) where
  evict-HasDistinct :
      (bound : ℕ) (d : Dict K (Entry Raw)) → HasDistinct dec d → HasDistinct dec (evict bound d)
  unfolding evict
  evict-HasDistinct bound [] h = tt
  evict-HasDistinct bound (e ∷ d) h = ground (arith, evict-HasDistinct bound d h.1)

  append-HasDistinct :
      (k : K) (e : Entry Raw) (d : Dict K (Entry Raw))
      → HasDistinct dec d
      → lookup dec k d ≡ none
      → HasDistinct dec (d ++ (k, e) ∷ [])
  unfolding lookup
  append-HasDistinct k e [] h absent = (refl, tt)
  append-HasDistinct k e ((i, w) ∷ d) h absent =
      ground (arith, append-HasDistinct k e d h.1, lookup-append dec i d ((k, e) ∷ []))

  move_to_end-HasDistinct :
      (k : K) (d : Dict K (Entry Raw)) → HasDistinct dec d → HasDistinct dec (move_to_end dec k d)
  unfolding move_to_end
  move_to_end-HasDistinct k d h = elim (Option-cases (lookup dec k d)) [
    | inl absent ↦ rw (absent, move_to_end) h
    | inr (e, found) ↦
        rw (found, move_to_end)
          (append-HasDistinct k e (erase dec k d) (erase-HasDistinct dec k d h)
            (lookup-erase_self dec k d h))
  ]

  length-erase_found :
      (k : K) (e : Entry Raw) (d : Dict K (Entry Raw))
      → lookup dec k d ≡ some e
      → length (erase dec k d) + 1 ≡ length d
  unfolding lookup erase
  length-erase_found k e [] h = cc
  length-erase_found k e (x ∷ d) h = ground (arith, length-erase_found k e d)

  length-move_to_end : (k : K) (d : Dict K (Entry Raw)) → length (move_to_end dec k d) ≡ length d
  unfolding move_to_end
  length-move_to_end k d = elim (Option-cases (lookup dec k d)) [
    | inl absent ↦ rw (absent, move_to_end) refl
    | inr (e, found) ↦
        rw (found, move_to_end)
          (omega
            (arith, length-append (erase dec k d) ((k, e) ∷ []), length-erase_found k e d found))
  ]

  pub record IsValid (d : Dict K (Entry Raw)) : Type 0 where
    pub bounded : length d ≤ local_cache_max_entries
    pub distinct : HasDistinct dec d

  pub store-IsValid :
      (k : K) (e : Entry Raw) (d : Dict K (Entry Raw)) → IsValid d → IsValid (store dec k e d)
  unfolding store
  store-IsValid k e d h = record {
    bounded = length-evict-le local_cache_max_entries (move_to_end dec k (insert dec k e d));
    distinct =
        evict-HasDistinct local_cache_max_entries (move_to_end dec k (insert dec k e d))
          (move_to_end-HasDistinct k (insert dec k e d) (insert-HasDistinct dec k e d h.distinct));
  }

  erase-IsValid : (k : K) (d : Dict K (Entry Raw)) → IsValid d → IsValid (erase dec k d)
  erase-IsValid k d h = record {
    bounded = omega (arith, h.bounded, length-erase-le dec k d);
    distinct = erase-HasDistinct dec k d h.distinct;
  }

  move_to_end-IsValid : (k : K) (d : Dict K (Entry Raw)) → IsValid d → IsValid (move_to_end dec k d)
  move_to_end-IsValid k d h = record {
    bounded = omega (arith, h.bounded, length-move_to_end k d);
    distinct = move_to_end-HasDistinct k d h.distinct;
  }

  pub local_get_raw-IsValid :
      (now : ℕ) (k : K) (d : Dict K (Entry Raw)) → IsValid d → IsValid (local_get_raw dec now k d).1
  unfolding local_get_raw
  local_get_raw-IsValid now k d h = ground (arith, erase-IsValid k d h, move_to_end-IsValid k d h)

  pub local_set_nx-IsValid :
      (now : ℕ) (k : K) (raw : Raw) (ttl : ℕ) (d : Dict K (Entry Raw))
      → IsValid d
      → IsValid (local_set_nx dec now k raw ttl d).1
  unfolding local_set_nx
  local_set_nx-IsValid now k raw ttl d h =
      ground (arith, store-IsValid k (raw, some (now + seconds ttl)) d h)

  pub local_delete-IsValid :
      (k : K) (d : Dict K (Entry Raw)) → IsValid d → IsValid (local_delete dec k d)
  unfolding local_delete
  local_delete-IsValid k d h = erase-IsValid k d h

-- A call of the store, with its clock reading.
pub data Call (K Raw : Type 0) : Type 0 where
  get : ℕ → K → Call K Raw
  set : ℕ → K → Raw → Option ℕ → Call K Raw
  set_nx : ℕ → K → Raw → ℕ → Call K Raw
  delete : K → Call K Raw

module _ {K Raw : Type 0} (dec : Discrete K) where
  unfoldable pub run : List (Call K Raw) → Dict K (Entry Raw) → Dict K (Entry Raw)
  run [] d = d
  run (get now k ∷ calls) d = run calls (local_get_raw dec now k d).1
  run (set now k raw ttl ∷ calls) d = run calls (local_set_raw dec now k raw ttl d)
  run (set_nx now k raw ttl ∷ calls) d = run calls (local_set_nx dec now k raw ttl d).1
  run (delete k ∷ calls) d = run calls (local_delete dec k d)

  -- From a store with at most 5000 entries and no key twice, every sequence of reads, writes,
  -- conditional writes and deletions leads to such a store.
  pub run-IsValid :
      (calls : List (Call K Raw)) (d : Dict K (Entry Raw))
      → IsValid dec d
      → IsValid dec (run calls d)
  unfolding run local_set_raw
  run-IsValid [] d h = h
  run-IsValid (get now k ∷ calls) d h =
      run-IsValid calls (local_get_raw dec now k d).1 (local_get_raw-IsValid dec now k d h)
  run-IsValid (set now k raw ttl ∷ calls) d h =
      run-IsValid calls (store dec k (raw, expiry now ttl) d)
        (store-IsValid dec k (raw, expiry now ttl) d h)
  run-IsValid (set_nx now k raw ttl ∷ calls) d h =
      run-IsValid calls (local_set_nx dec now k raw ttl d).1
        (local_set_nx-IsValid dec now k raw ttl d h)
  run-IsValid (delete k ∷ calls) d h =
      run-IsValid calls (local_delete dec k d) (local_delete-IsValid dec k d h)
