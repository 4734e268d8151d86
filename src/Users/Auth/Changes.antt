-- ===== src/Users/Auth/Changes.antt =====
-- What a request changes in the table of profiles and in their cache.
use mathlib.Core.Path.{subst}
use metroflow_ai_backend.Common.{
  ℕ, ◌≡◌, ◌≢◌, ◌⊎◌, inl, inr, sym, ap, ◌∙◌, Bool, true, false, Option, none, some, ite, arith,
  ℕ_discrete,
}
use metroflow_ai_backend.Common.Dict.{lookup, insert, lookup-insert}
use metroflow_ai_backend.Common.Dict.Order.{insert-found}
use metroflow_ai_backend.Alerts.{passenger}
use metroflow_ai_backend.Users.{Profile, UserProfileUpdate, Accounts}
use metroflow_ai_backend.Users.Auth.{is_admin, in_redis, in_local, with_cached, updated_profile}

module _ {Uid : Type 0} (dec : Discrete Uid) where
  -- Every row has its key as its id.
  abbrev pub IsKeyed : Accounts Uid → Type 0
  IsKeyed a = (id : Uid) (p : Profile Uid) → lookup dec id a.profiles ≡ some p → p.id ≡ id

  -- Redis has no profile but that of the table.
  abbrev pub IsFresh : Accounts Uid → Type 0
  IsFresh a = (id : Uid) (p : Profile Uid) → a.redis id ≡ some p → lookup dec id a.profiles ≡ some p

  -- A profile stands in the table or in the cache.
  pub data IsSeen (a : Accounts Uid) (p : Profile Uid) : Type 0 where
    in_table : (id : Uid) → lookup dec id a.profiles ≡ some p → IsSeen a p
    shared : (id : Uid) → a.redis id ≡ some p → IsSeen a p
    by_process : (k : ℕ) (id : Uid) → a.local k id ≡ some p → IsSeen a p

  abbrev pub with_row : Uid → Profile Uid → Accounts Uid → Accounts Uid
  with_row id p a = record a { profiles = insert dec id p a.profiles }

  -- One change, where the deletions of cached profiles reach Redis or not.
  pub data Change (deletes : Bool) (a : Accounts Uid) : Accounts Uid → Type 0 where
    same : Change deletes a a
    caches :
        (reached : Bool) (process : ℕ) (id : Uid) (p : Profile Uid)
        → lookup dec id a.profiles ≡ some p
        → Change deletes a (with_cached dec reached process id (some p) a)
    creates :
        (id : Uid) (p : Profile Uid)
        → lookup dec id a.profiles ≡ none
        → p.id ≡ id
        → p.role ≡ passenger
        → Change deletes a (with_row id p a)
    edits :
        (process : ℕ) (id : Uid) (p : Profile Uid) (u : UserProfileUpdate) (current : Profile Uid)
        → lookup dec id a.profiles ≡ some p
        → p.id ≡ id
        → IsSeen a current
        → Change deletes a (
            with_cached dec deletes process id none
              (with_row id (updated_profile (is_admin current.role) u p) a))
    forgets : (id : Uid) → Change deletes a (in_redis dec id none a)
    evicts : (process : ℕ) (id : Uid) → Change deletes a (in_local dec process id none a)

  pub data Changes (deletes : Bool) (a : Accounts Uid) : Accounts Uid → Type 0 where
    nothing : Changes deletes a a
    more : {b c : Accounts Uid} → Changes deletes a b → Change deletes b c → Changes deletes a c

  set_found :
      (id j : Uid) (e : Profile Uid) (entry old : Option (Profile Uid))
      → ite (dec id j) entry old ≡ some e
      → ((id ≡ j) × (entry ≡ some e)) ⊎ ((id ≢ j) × (old ≡ some e))
  set_found id j e entry old h = elim (dec id j) [
    | yes q ↦ inl (q, ground (arith, q, h))
    | no ne ↦ inr (ne, ground (arith, ne, h))
  ]

  with_row-IsKeyed :
      (id : Uid) (p : Profile Uid) (a : Accounts Uid)
      → p.id ≡ id
      → IsKeyed a
      → IsKeyed (with_row id p a)
  with_row-IsKeyed id p a key h = λ j q found. elim (insert-found dec id j p q a.profiles found) [
    | inl (e, same_row) ↦ ap (λ x. x.id) same_row ∙ key ∙ e
    | inr (ne, old) ↦ h j q old
  ]

  in_redis-IsFresh :
      (id : Uid) (entry : Option (Profile Uid)) (a : Accounts Uid)
      → ((e : Profile Uid) → entry ≡ some e → lookup dec id a.profiles ≡ some e)
      → ((j : Uid) (e : Profile Uid)
          → id ≢ j
          → a.redis j ≡ some e
          → lookup dec j a.profiles ≡ some e)
      → IsFresh (in_redis dec id entry a)
  in_redis-IsFresh id entry a only others = λ j q found.
      elim (set_found id j q entry (a.redis j) found) [
        | inl (e, new) ↦ subst (λ k. lookup dec k a.profiles ≡ some q) e (only q new)
        | inr (ne, old) ↦ others j q ne old
      ]

  pub Change-IsKeyed :
      {deletes : Bool} {a b : Accounts Uid} → Change deletes a b → IsKeyed a → IsKeyed b
  Change-IsKeyed same h = h
  Change-IsKeyed (caches true process id p found) h = h
  Change-IsKeyed (caches false process id p found) h = h
  Change-IsKeyed {a = a} (creates id p missing key role) h = with_row-IsKeyed id p a key h
  Change-IsKeyed {deletes = true} {a = a} (edits process id p u current found key known) h =
      with_row-IsKeyed id (updated_profile (is_admin current.role) u p) a key h
  Change-IsKeyed {deletes = false} {a = a} (edits process id p u current found key known) h =
      with_row-IsKeyed id (updated_profile (is_admin current.role) u p) a key h
  Change-IsKeyed (forgets id) h = h
  Change-IsKeyed (evicts process id) h = h

  pub Changes-IsKeyed :
      {deletes : Bool} {a b : Accounts Uid} → Changes deletes a b → IsKeyed a → IsKeyed b
  Changes-IsKeyed nothing h = h
  Changes-IsKeyed (more before last) h = Change-IsKeyed last (Changes-IsKeyed before h)

  -- What is seen after a change of the cache or of a row was seen before, or is what was written.
  pub in_redis-IsSeen :
      (id : Uid) (entry : Option (Profile Uid)) (a : Accounts Uid) (q : Profile Uid)
      → IsSeen (in_redis dec id entry a) q
      → (entry ≡ some q) ⊎ IsSeen a q
  in_redis-IsSeen id entry a q (in_table j h) = inr (in_table j h)
  in_redis-IsSeen id entry a q (by_process k j h) = inr (by_process k j h)
  in_redis-IsSeen id entry a q (shared j h) = elim (set_found id j q entry (a.redis j) h) [
    | inl (e, new) ↦ inl new
    | inr (ne, old) ↦ inr (shared j old)
  ]

  pub in_local-IsSeen :
      (process : ℕ) (id : Uid) (entry : Option (Profile Uid)) (a : Accounts Uid) (q : Profile Uid)
      → IsSeen (in_local dec process id entry a) q
      → (entry ≡ some q) ⊎ IsSeen a q
  in_local-IsSeen process id entry a q (in_table j h) = inr (in_table j h)
  in_local-IsSeen process id entry a q (shared j h) = inr (shared j h)
  in_local-IsSeen process id entry a q (by_process k j h) = elim (ℕ_discrete process k) [
    | no ne ↦ inr (by_process k j (ground (arith, ne, h)))
    | yes e ↦
        let there : ite (dec id j) entry (a.local k j) ≡ some q = ground (arith, e, h) in
        elim (set_found id j q entry (a.local k j) there) [
          | inl (same_id, new) ↦ inl new
          | inr (other, old) ↦ inr (by_process k j old)
        ]
  ]

  pub with_cached-IsSeen :
      (reached : Bool) (process : ℕ) (id : Uid) (entry : Option (Profile Uid)) (a : Accounts Uid)
      (q : Profile Uid)
      → IsSeen (with_cached dec reached process id entry a) q
      → (entry ≡ some q) ⊎ IsSeen a q
  with_cached-IsSeen false process id entry a q h = in_local-IsSeen process id entry a q h
  with_cached-IsSeen true process id entry a q h =
      elim (in_redis-IsSeen id entry (in_local dec process id entry a) q h) [
        | inl new ↦ inl new
        | inr old ↦ in_local-IsSeen process id entry a q old
      ]

  pub with_row-IsSeen :
      (id : Uid) (p : Profile Uid) (a : Accounts Uid) (q : Profile Uid)
      → IsSeen (with_row id p a) q
      → (q ≡ p) ⊎ IsSeen a q
  with_row-IsSeen id p a q (in_table j h) = elim (insert-found dec id j p q a.profiles h) [
    | inl (e, row) ↦ inl row
    | inr (ne, old) ↦ inr (in_table j old)
  ]
  with_row-IsSeen id p a q (shared j h) = inr (shared j h)
  with_row-IsSeen id p a q (by_process k j h) = inr (by_process k j h)

  -- A row that is new has no entry in Redis.
  new_row-IsFresh :
      (id : Uid) (p : Profile Uid) (a : Accounts Uid)
      → lookup dec id a.profiles ≡ none
      → IsFresh a
      → IsFresh (with_row id p a)
  new_row-IsFresh id p a missing h = λ j q found. elim (dec id j) [
    | yes e ↦
        let there = subst (λ k. lookup dec k a.profiles ≡ some q) (sym e) (h j q found) in
        absurd (ground (arith, missing, there))
    | no ne ↦ ground (arith, ne, lookup-insert dec id j p a.profiles, h j q found)
  ]

  -- Where deletions reach Redis, every change keeps it fresh.
  pub Change-IsFresh : {a b : Accounts Uid} → Change true a b → IsFresh a → IsFresh b
  Change-IsFresh same h = h
  Change-IsFresh {a} (caches true process id p found) h =
      in_redis-IsFresh id (some p) (in_local dec process id (some p) a) (λ e q. found ∙ q)
        (λ j e ne. h j e)
  Change-IsFresh (caches false process id p found) h = h
  Change-IsFresh {a} (creates id p missing key role) h = new_row-IsFresh id p a missing h
  Change-IsFresh {a} (edits process id p u current found key known) h =
      let q = updated_profile (is_admin current.role) u p in
      in_redis-IsFresh id none (in_local dec process id none (with_row id q a))
        (λ e n. absurd (ground (arith, n)))
        (λ j e ne old. ground (arith, ne, lookup-insert dec id j q a.profiles, h j e old))
  Change-IsFresh {a} (forgets id) h =
      in_redis-IsFresh id none a (λ e n. absurd (ground (arith, n))) (λ j e ne. h j e)
  Change-IsFresh (evicts process id) h = h

  pub Changes-IsFresh : {a b : Accounts Uid} → Changes true a b → IsFresh a → IsFresh b
  Changes-IsFresh nothing h = h
  Changes-IsFresh (more before last) h = Change-IsFresh last (Changes-IsFresh before h)
