-- ===== src/Users/Auth/Requests.antt =====
-- Requests of several processes: each is a few changes, and whoever it grants was in the table or in
-- the cache.
use mathlib.Core.Path.{subst}
use metroflow_ai_backend.Common.{
  ℕ, ◌≡◌, refl, true, false, ◌&&◌, not, Bool, Option, none, some, Option-cases, Bool-cases, inl,
  inr, [], ◌∷◌, Text, strip, ite, arith, ap, sym, ◌∙◌,
}
use metroflow_ai_backend.Common.Dict.{lookup, insert, lookup-insert_self}
use metroflow_ai_backend.Alerts.{passenger}
use metroflow_ai_backend.Users.{
  Profile, Claims, UserProfileUpdate, Accounts, Links, Answer, granted, refused, raised, Verifier,
  lower, profile_of_claims, profile_of_email, fits_columns, is_taken,
}
use metroflow_ai_backend.Users.Auth.{
  is_admin, cached, in_redis, in_local, with_cached, invalidate_user_cache, get_or_create,
  get_or_create_profile, profile_of_token, if_active, get_current_user,
  get_user_from_token_optional, updated_profile, update_user, for_user, put_user,
}
use metroflow_ai_backend.Users.Auth.Changes.{
  IsKeyed, IsSeen, in_table, shared, by_process, Change, same, caches, creates, edits, forgets,
  evicts, Changes, nothing, more, Changes-IsKeyed,
}

pub granted_same : {A : Type 0} {x y : A} → granted x ≡ granted y → x ≡ y
granted_same e = ground (arith, e)

pub if_active-granted :
    {Uid : Type 0} (answer : Answer (Profile Uid)) (p : Profile Uid)
    → if_active answer ≡ granted p
    → (answer ≡ granted p) × (p.is_active ≡ true)
if_active-granted (granted q) p e = elim (Bool-cases q.is_active) [
  | inl b ↦
      let g : granted q ≡ granted p = ground (arith, b, e) in
      (g, ap (λ x. x.is_active) (sym (granted_same g)) ∙ b)
  | inr b ↦ absurd (ground (arith, b, e))
]
if_active-granted (refused status) p e = absurd (ground (arith, e))
if_active-granted raised p e = absurd (ground (arith, e))

module _ {Uid : Type 0} (dec : Discrete Uid) (links : Links) where
  -- Whoever an answer grants is in the table or in the cache.
  abbrev pub IsKnown : Answer (Profile Uid) × Accounts Uid → Type 0
  IsKnown r = (p : Profile Uid) → r.0 ≡ granted p → IsSeen dec r.1 p

  cached-IsSeen :
      (id : Uid) (p : Profile Uid) (a : Accounts Uid) → cached links id a ≡ some p → IsSeen dec a p
  cached-IsSeen id p a hit = elim (Bool-cases links.gets) [
    | inl up ↦ shared id (ground (arith, up, hit))
    | inr down ↦ by_process links.process id (ground (arith, down, hit))
  ]

  granted-IsSeen :
      (p : Profile Uid) (a : Accounts Uid)
      → IsSeen dec a p
      → (q : Profile Uid) → granted p ≡ granted q
      → IsSeen dec a q
  granted-IsSeen p a h q e = rw⁻¹ (granted_same e) h

  -- A cached entry leaves the table alone.
  cached_row :
      (reached : Bool) (id : Uid) (p : Profile Uid) (a : Accounts Uid)
      → lookup dec id a.profiles ≡ some p
      → lookup dec id (with_cached dec reached links.process id (some p) a).profiles ≡ some p
  cached_row true id p a h = h
  cached_row false id p a h = h

  get_or_create-Changes :
      {deletes : Bool} (id : Uid) (new : Profile Uid) (a : Accounts Uid)
      → new.id ≡ id
      → new.role ≡ passenger
      → Changes dec deletes a (get_or_create dec links id new a).1
        × IsKnown (get_or_create dec links id new a)
  get_or_create-Changes id new a key role = elim (Option-cases (cached links id a)) [
    | inr (p, hit) ↦
        rw (get_or_create, hit) (nothing, granted-IsSeen p a (cached-IsSeen id p a hit))
    | inl miss ↦ elim (Option-cases (lookup dec id a.profiles)) [
      | inr (p, found) ↦
          rw (get_or_create, miss, found)
            (
              more nothing (caches links.sets links.process id p found),
              granted-IsSeen p _ (in_table id (cached_row links.sets id p a found)),
            )
      | inl missing ↦ elim (Bool-cases (fits_columns new && not (is_taken new.email a.profiles))) [
        | inl b ↦
            let row : Accounts Uid = record a { profiles = insert dec id new a.profiles } in
            let found = lookup-insert_self dec id new a.profiles in
            rw (get_or_create, miss, missing, b)
              (
                more (more nothing (creates id new missing key role))
                    (caches links.sets links.process id new found),
                granted-IsSeen new _ (in_table id (cached_row links.sets id new row found)),
              )
        | inr b ↦ rw (get_or_create, miss, missing, b) (nothing, λ p e. absurd (ground (arith, e)))
      ]
    ]
  ]

  update_user-Change :
      (current : Profile Uid) (id : Uid) (u : UserProfileUpdate) (a : Accounts Uid)
      → IsSeen dec a current
      → IsKeyed dec a
      → Change dec links.deletes a (update_user dec links current id u a).1
  update_user-Change current id u a known h =
      elim (Bool-cases (not (is_admin current.role) && not (ite (dec current.id id) true false))) [
        | inl b ↦ rw (update_user, b) same
        | inr b ↦ elim (Option-cases (lookup dec id a.profiles)) [
          | inl missing ↦ rw (update_user, b, missing) same
          | inr (p, found) ↦
              elim (Bool-cases (fits_columns (updated_profile (is_admin current.role) u p))) [
                | inl c ↦
                    let key = h id p found in
                    let q = updated_profile (is_admin current.role) u p in
                    let row : Accounts Uid = record a { profiles = insert dec id q a.profiles } in
                    rw (update_user, b, found, c)
                      (subst
                        (λ k. Change dec links.deletes a (invalidate_user_cache dec links k row))
                        (sym key) (edits links.process id p u current found key known))
                | inr c ↦ rw (update_user, b, found, c) same
              ]
        ]
      ]

  for_user-Change :
      (id : Uid) (u : UserProfileUpdate) (answer : Answer (Profile Uid)) (a : Accounts Uid)
      → IsKnown (answer, a)
      → IsKeyed dec a
      → Change dec links.deletes a (for_user dec links id u answer a).1
  for_user-Change id u (granted p) a known h = update_user-Change p id u a (known p refl) h
  for_user-Change id u (refused status) a known h = same
  for_user-Change id u raised a known h = same

module _ {Uid : Type 0} (dec : Discrete Uid) (v : Verifier Uid) where
  profile_of_token-Changes :
      (links : Links) {deletes : Bool} (token : Text) (a : Accounts Uid)
      → Changes dec deletes a (profile_of_token dec v links token a).1
        × IsKnown dec links (profile_of_token dec v links token a)
  profile_of_token-Changes links {deletes} token a = elim (Bool-cases v.dev_auth_bypass_enabled) [
    | inl b ↦
        let email = lower (strip token) in
        let id = v.uuid_of_email email in
        rw (profile_of_token, b)
          (get_or_create-Changes dec links id (profile_of_email id email) a refl refl)
    | inr b ↦ elim (Option-cases (v.decode_supabase_token token)) [
      | inl bad ↦ rw (profile_of_token, b, bad) (nothing, λ p e. absurd (ground (arith, e)))
      | inr (c, good) ↦ rw (profile_of_token, b, good) (of_claims c)
    ]
  ]
    where
      of_claims :
          (c : Claims)
          → Changes dec deletes a (get_or_create_profile dec v links c a).1
            × IsKnown dec links (get_or_create_profile dec v links c a)
      of_claims c = elim (Option-cases c.sub) [
        | inl e ↦ rw (get_or_create_profile, e) (nothing, λ p e. absurd (ground (arith, e)))
        | inr ([], e) ↦ rw (get_or_create_profile, e) (nothing, λ p e. absurd (ground (arith, e)))
        | inr (x ∷ xs, e) ↦ elim (Option-cases (v.uuid (x ∷ xs))) [
          | inl bad ↦
              rw (get_or_create_profile, e, bad) (nothing, λ p e. absurd (ground (arith, e)))
          | inr (id, good) ↦
              rw (get_or_create_profile, e, good)
                (get_or_create-Changes dec links id (profile_of_claims id c) a refl refl)
        ]
      ]

  pub get_current_user-Changes :
      (links : Links) {deletes : Bool} (token : Option Text) (a : Accounts Uid)
      → Changes dec deletes a (get_current_user dec v links token a).1
        × IsKnown dec links (get_current_user dec v links token a)
  unfolding get_current_user
  get_current_user-Changes links none a = (nothing, λ p e. absurd (ground (arith, e)))
  get_current_user-Changes links (some []) a = (nothing, λ p e. absurd (ground (arith, e)))
  get_current_user-Changes links (some (c ∷ s)) a =
      let (changes, known) = profile_of_token-Changes links (c ∷ s) a in
      let answer = (profile_of_token dec v links (c ∷ s) a).0 in
      (changes, λ p e. known p (if_active-granted answer p e).0)

  -- A request that authenticates, on a route or a socket, a request that changes a profile, or the
  -- end of an entry in Redis or in a local store.
  pub data Step (a : Accounts Uid) : Accounts Uid → Type 0 where
    authenticates :
        (links : Links) (token : Option Text) → Step a (get_current_user dec v links token a).1
    connects :
        (links : Links) (token : Option Text)
        → Step a (get_user_from_token_optional dec v links token a).1
    puts :
        (links : Links) (token : Option Text) (id : Uid) (u : UserProfileUpdate)
        → Step a (put_user dec v links token id u a).1
    expires : (id : Uid) → Step a (in_redis dec id none a)
    leaves : (process : ℕ) (id : Uid) → Step a (in_local dec process id none a)

  pub data Reach (start : Accounts Uid) : Accounts Uid → Type 0 where
    here : Reach start start
    next : {a b : Accounts Uid} → Reach start a → Step a b → Reach start b

  -- The deletion that follows a change of a profile reaches Redis.
  abbrev pub deletes_of : {a b : Accounts Uid} → Step a b → Bool
  deletes_of (authenticates links token) = true
  deletes_of (connects links token) = true
  deletes_of (puts links token id u) = links.deletes
  deletes_of (expires id) = true
  deletes_of (leaves process id) = true

  pub Step-Changes :
      {a b : Accounts Uid} (s : Step a b) → IsKeyed dec a → Changes dec (deletes_of s) a b
  unfolding get_user_from_token_optional put_user
  Step-Changes {a} (authenticates links token) h = (get_current_user-Changes links token a).0
  Step-Changes {a} (connects links none) h = nothing
  Step-Changes {a} (connects links (some [])) h = nothing
  Step-Changes {a} (connects links (some (c ∷ s))) h = (profile_of_token-Changes links (c ∷ s) a).0
  Step-Changes {a} (puts links token id u) h =
      let (changes, known) = get_current_user-Changes links token a in
      let (answer, b) = get_current_user dec v links token a in
      more changes (for_user-Change dec links id u answer b known (Changes-IsKeyed dec changes h))
  Step-Changes (expires id) h = more nothing (forgets id)
  Step-Changes (leaves process id) h = more nothing (evicts process id)

  pub Reach-IsKeyed : {a b : Accounts Uid} → Reach a b → IsKeyed dec a → IsKeyed dec b
  Reach-IsKeyed here h = h
  Reach-IsKeyed (next r s) h =
      let keyed = Reach-IsKeyed r h in Changes-IsKeyed dec (Step-Changes s keyed) keyed
