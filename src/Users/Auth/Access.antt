-- ===== src/Users/Auth/Access.antt =====
-- Whom the requests let through.
use mathlib.Core.Path.{subst}
use metroflow_ai_backend.Common.{
  ◌≡◌, refl, sym, ap, ◌∙◌, true, ◌&&◌, not, Option, none, some, Option-cases, Bool-cases, inl, inr,
  List, [], ◌∷◌, Text, strip, arith,
}
use metroflow_ai_backend.Common.Dict.{lookup, insert, lookup-insert_self}
use metroflow_ai_backend.Alerts.{UserRole}
use metroflow_ai_backend.Users.{
  Profile, Claims, Accounts, Links, Answer, granted, refused, raised, Verifier, lower,
  profile_of_claims, profile_of_email, fits_columns, is_taken,
}
use metroflow_ai_backend.Users.Auth.{
  has_role, cached, with_cached, get_or_create, get_or_create_profile, profile_of_token,
  get_current_user, if_has_role, require_roles,
}
use metroflow_ai_backend.Users.Auth.Changes.{IsKeyed, IsFresh, Changes, Changes-IsFresh}
use metroflow_ai_backend.Users.Auth.Requests.{
  granted_same, if_active-granted, Reach, here, next, deletes_of, Step-Changes, Reach-IsKeyed,
}

if_has_role-granted :
    {Uid : Type 0} (roles : List UserRole) (answer : Answer (Profile Uid)) (p : Profile Uid)
    → if_has_role roles answer ≡ granted p
    → (answer ≡ granted p) × (has_role p.role roles ≡ true)
if_has_role-granted roles (granted q) p e = elim (Bool-cases (has_role q.role roles)) [
  | inl b ↦
      let g : granted q ≡ granted p = ground (arith, b, e) in
      (g, ap (λ x. has_role x.role roles) (sym (granted_same g)) ∙ b)
  | inr b ↦ absurd (ground (arith, b, e))
]
if_has_role-granted roles (refused status) p e = absurd (ground (arith, e))
if_has_role-granted roles raised p e = absurd (ground (arith, e))

module _ {Uid : Type 0} (dec : Discrete Uid) (links : Links) where
  -- Whoever an answer grants is a row of the table.
  abbrev IsRow : Answer (Profile Uid) × Accounts Uid → Type 0
  IsRow r = (p : Profile Uid) → r.0 ≡ granted p → lookup dec p.id r.1.profiles ≡ some p

  granted-IsRow :
      (id : Uid) (p : Profile Uid) (a : Accounts Uid)
      → lookup dec id a.profiles ≡ some p
      → p.id ≡ id
      → (q : Profile Uid) → granted p ≡ granted q
      → lookup dec q.id a.profiles ≡ some q
  granted-IsRow id p a found key q e =
      subst (λ x. lookup dec x.id a.profiles ≡ some x) (granted_same e)
        (subst (λ k. lookup dec k a.profiles ≡ some p) (sym key) found)

  -- An entry of the cache leaves the table alone.
  same_rows :
      (id : Uid) (p : Profile Uid) (a : Accounts Uid)
      → (with_cached dec links.sets links.process id (some p) a).profiles ≡ a.profiles
  same_rows id p a = elim (Bool-cases links.sets) [ inl up ↦ rw up refl | inr down ↦ rw down refl ]

  get_or_create-IsRow :
      (id : Uid) (new : Profile Uid) (a : Accounts Uid)
      → links.gets ≡ true
      → new.id ≡ id
      → IsKeyed dec a
      → IsFresh dec a
      → IsRow (get_or_create dec links id new a)
  get_or_create-IsRow id new a up key keyed fresh = elim (Option-cases (cached links id a)) [
    | inr (p, hit) ↦
        let found = fresh id p (ground (arith, up, hit)) in
        rw (get_or_create, hit) (granted-IsRow id p a found (keyed id p found))
    | inl miss ↦ elim (Option-cases (lookup dec id a.profiles)) [
      | inr (p, found) ↦
          rw (get_or_create, miss, found, same_rows id p a)
            (granted-IsRow id p a found (keyed id p found))
      | inl missing ↦ elim (Bool-cases (fits_columns new && not (is_taken new.email a.profiles))) [
        | inl b ↦
            let row : Accounts Uid = record a { profiles = insert dec id new a.profiles } in
            rw (get_or_create, miss, missing, b, same_rows id new row)
              (granted-IsRow id new row (lookup-insert_self dec id new a.profiles) key)
        | inr b ↦ rw (get_or_create, miss, missing, b) (λ p e. absurd (ground (arith, e)))
      ]
    ]
  ]

module _ {Uid : Type 0} (dec : Discrete Uid) (v : Verifier Uid) where
  profile_of_token-IsRow :
      (links : Links) (token : Text) (a : Accounts Uid)
      → links.gets ≡ true
      → IsKeyed dec a
      → IsFresh dec a
      → IsRow dec links (profile_of_token dec v links token a)
  profile_of_token-IsRow links token a up keyed fresh =
      elim (Bool-cases v.dev_auth_bypass_enabled) [
        | inl b ↦
            let email = lower (strip token) in
            let id = v.uuid_of_email email in
            rw (profile_of_token, b)
              (get_or_create-IsRow dec links id (profile_of_email id email) a up refl keyed fresh)
        | inr b ↦ elim (Option-cases (v.decode_supabase_token token)) [
          | inl bad ↦ rw (profile_of_token, b, bad) (λ p e. absurd (ground (arith, e)))
          | inr (c, good) ↦ rw (profile_of_token, b, good) (of_claims c)
        ]
      ]
    where
      of_claims : (c : Claims) → IsRow dec links (get_or_create_profile dec v links c a)
      of_claims c = elim (Option-cases c.sub) [
        | inl e ↦ rw (get_or_create_profile, e) (λ p e. absurd (ground (arith, e)))
        | inr ([], e) ↦ rw (get_or_create_profile, e) (λ p e. absurd (ground (arith, e)))
        | inr (x ∷ xs, e) ↦ elim (Option-cases (v.uuid (x ∷ xs))) [
          | inl bad ↦ rw (get_or_create_profile, e, bad) (λ p e. absurd (ground (arith, e)))
          | inr (id, good) ↦
              rw (get_or_create_profile, e, good)
                (get_or_create-IsRow dec links id (profile_of_claims id c) a up refl keyed fresh)
        ]
      ]

  get_current_user-IsRow :
      (links : Links) (token : Option Text) (a : Accounts Uid)
      → links.gets ≡ true
      → IsKeyed dec a
      → IsFresh dec a
      → IsRow dec links (get_current_user dec v links token a)
        × ((p : Profile Uid)
            → (get_current_user dec v links token a).0 ≡ granted p
            → p.is_active ≡ true)
  unfolding get_current_user
  get_current_user-IsRow links none a up keyed fresh =
      (λ p e. absurd (ground (arith, e)), λ p e. absurd (ground (arith, e)))
  get_current_user-IsRow links (some []) a up keyed fresh =
      (λ p e. absurd (ground (arith, e)), λ p e. absurd (ground (arith, e)))
  get_current_user-IsRow links (some (c ∷ s)) a up keyed fresh =
      let known = profile_of_token-IsRow links (c ∷ s) a up keyed fresh in
      let answer = (profile_of_token dec v links (c ∷ s) a).0 in
      (λ p e. known p (if_active-granted answer p e).0, λ p e. (if_active-granted answer p e).1)

  -- In a history, every deletion that follows a change of a profile reaches Redis.
  abbrev pub HasDeleted : {a b : Accounts Uid} → Reach dec v a b → Type 0
  HasDeleted here = Unit
  HasDeleted (next r s) = HasDeleted r × (deletes_of dec v s ≡ true)

  Reach-IsFresh :
      {a b : Accounts Uid} (r : Reach dec v a b)
      → HasDeleted r
      → IsKeyed dec a
      → IsFresh dec a
      → IsFresh dec b
  Reach-IsFresh here done keyed h = h
  Reach-IsFresh (next {a = m} {b = b} r s) done keyed h =
      let changes = Step-Changes dec v s (Reach-IsKeyed dec v r keyed) in
      let reached : Changes dec true m b = subst (λ d. Changes dec d m b) done.1 changes in
      Changes-IsFresh dec reached (Reach-IsFresh r done.0 keyed h)

  -- After any requests of any processes one after another, whose calls of the cache may fail to
  -- reach Redis, but for the deletions that follow the changes of profiles: a `require_roles`
  -- whose read of the cache reaches Redis lets through only a user whose row in the table is
  -- active and has one of the roles, though it may take the profile from the cache. At the start
  -- every row has its key as its id, and Redis has no profile but those of the table.
  pub require_roles_lem :
      (links : Links) (roles : List UserRole) (token : Option Text) (start a : Accounts Uid)
      (p : Profile Uid)
      → IsKeyed dec start
      → IsFresh dec start
      → (r : Reach dec v start a) → HasDeleted r
      → links.gets ≡ true
      → (require_roles dec v links roles token a).0 ≡ granted p
      → (lookup dec p.id (require_roles dec v links roles token a).1.profiles ≡ some p)
        × (p.is_active ≡ true)
        × (has_role p.role roles ≡ true)
  unfolding require_roles
  require_roles_lem links roles token start a p keyed fresh r deleted up e =
      let (row, active) =
        get_current_user-IsRow links token a up (Reach-IsKeyed dec v r keyed)
          (Reach-IsFresh r deleted keyed fresh) in
      let (g, role) = if_has_role-granted roles (get_current_user dec v links token a).0 p e in
      (row p g, active p g, role)
