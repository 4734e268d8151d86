-- ===== src/Users/Auth.antt =====
-- Who a request comes from, and what it may do: app/core/security.py, and update_user of
-- app/api/v1/users.py.
pub mod Changes
pub mod Requests
pub mod Access
pub mod Privileges
use metroflow_ai_backend.Common.{
  Bool, true, false, ◌&&◌, ◌||◌, not, Option, none, some, List, [], ◌∷◌, Text, strip, if◌then◌else◌,
  ite, ℕ, ℕ_discrete,
}
use metroflow_ai_backend.Common.Dict.{lookup, insert}
use metroflow_ai_backend.Alerts.{UserRole, admin, operator, passenger}
use metroflow_ai_backend.Schedules.Actions.{set_to}
use metroflow_ai_backend.Users.{
  Profile, Claims, UserProfileUpdate, Accounts, Links, Answer, granted, refused, raised, Verifier,
  lower, profile_of_claims, profile_of_email, fits_columns, is_taken,
}

unfoldable pub UserRole-discrete : Discrete UserRole
UserRole-discrete = hlevel

-- `role in roles`
abbrev pub has_role : UserRole → List UserRole → Bool
has_role role [] = false
has_role role (r ∷ roles) = ite (UserRole-discrete r role) true (has_role role roles)

-- `role == UserRole.ADMIN`
abbrev pub is_admin : UserRole → Bool
is_admin role = has_role role (admin ∷ [])

module _ {Uid : Type 0} where
  abbrev pub if_active : Answer (Profile Uid) → Answer (Profile Uid)
  if_active (granted p) = if p.is_active then granted p else refused 403
  if_active (refused status) = refused status
  if_active raised = raised

  abbrev pub or_none : Answer (Profile Uid) → Option (Profile Uid)
  or_none (granted p) = some p
  or_none (refused status) = none
  or_none raised = none

  abbrev pub if_has_role : List UserRole → Answer (Profile Uid) → Answer (Profile Uid)
  if_has_role roles (granted p) = if has_role p.role roles then granted p else refused 403
  if_has_role roles (refused status) = refused status
  if_has_role roles raised = raised

  -- The row after `setattr` of the fields, of which only an admin may set the last two.
  abbrev pub updated_profile : Bool → UserProfileUpdate → Profile Uid → Profile Uid
  updated_profile is_by_admin u p = record p {
    full_name = set_to u.set_full_name p.full_name;
    username = set_to u.set_username p.username;
    phone = set_to u.set_phone p.phone;
    avatar_url = set_to u.set_avatar_url p.avatar_url;
    role = if is_by_admin then set_to u.set_role p.role else p.role;
    is_active = if is_by_admin then set_to u.set_is_active p.is_active else p.is_active;
  }

-- `cache.get_json` of a profile: the local store is read where Redis is not reached.
abbrev pub cached : {Uid : Type 0} → Links → Uid → Accounts Uid → Option (Profile Uid)
cached links id a = if links.gets then a.redis id else a.local links.process id

module _ {Uid : Type 0} (dec : Discrete Uid) where
  -- An entry of Redis.
  abbrev pub in_redis : Uid → Option (Profile Uid) → Accounts Uid → Accounts Uid
  in_redis id entry a = record a { redis = λ j. ite (dec id j) entry (a.redis j) }

  -- An entry of the local store of a process.
  abbrev pub in_local : ℕ → Uid → Option (Profile Uid) → Accounts Uid → Accounts Uid
  in_local process id entry a = record a {
    local = λ k j. ite (ℕ_discrete process k) (ite (dec id j) entry (a.local k j)) (a.local k j);
  }

  -- `cache.set_json` and `cache.delete`: the local store, and Redis if it is reached.
  abbrev pub with_cached : Bool → ℕ → Uid → Option (Profile Uid) → Accounts Uid → Accounts Uid
  with_cached reached process id entry a =
      let b = in_local process id entry a in if reached then in_redis id entry b else b

module _ {Uid : Type 0} (dec : Discrete Uid) (links : Links) where
  -- `invalidate_user_cache`
  abbrev pub invalidate_user_cache : Uid → Accounts Uid → Accounts Uid
  invalidate_user_cache id a = with_cached dec links.deletes links.process id none a

  -- The cache, the row, or a new row, of which the database refuses one.
  abbrev pub get_or_create : Uid → Profile Uid → Accounts Uid → Answer (Profile Uid) × Accounts Uid
  get_or_create id new a = elim (cached links id a) [
    | some p ↦ (granted p, a)
    | none ↦ elim (lookup dec id a.profiles) [
      | some p ↦ (granted p, with_cached dec links.sets links.process id (some p) a)
      | none ↦
          if fits_columns new && not (is_taken new.email a.profiles)
          then (
            granted new,
            with_cached dec links.sets links.process id (some new)
                (record a { profiles = insert dec id new a.profiles }),
          )
          else (raised, a)
    ]
  ]

  -- `update_user`, for the user that its dependency gives.
  abbrev pub update_user :
      Profile Uid → Uid → UserProfileUpdate → Accounts Uid → Answer (Profile Uid) × Accounts Uid
  update_user current id u a =
      let is_own = ite (dec current.id id) true false in
      if not (is_admin current.role) && not is_own
      then (refused 403, a)
      else elim (lookup dec id a.profiles) [
        | none ↦ (refused 404, a)
        | some p ↦
            let q = updated_profile (is_admin current.role) u p in
            if fits_columns q
            then (
              granted q,
              invalidate_user_cache p.id (record a { profiles = insert dec id q a.profiles }),
            )
            else (raised, a)
      ]

  abbrev pub for_user :
      Uid
      → UserProfileUpdate
      → Answer (Profile Uid)
      → Accounts Uid
      → Answer (Profile Uid) × Accounts Uid
  for_user id u (granted current) a = update_user current id u a
  for_user id u (refused status) a = (refused status, a)
  for_user id u raised a = (raised, a)

module _ {Uid : Type 0} (dec : Discrete Uid) (v : Verifier Uid) (links : Links) where
  -- `_get_or_create_profile_by_email`
  abbrev pub get_or_create_profile_by_email :
      Text → Accounts Uid → Answer (Profile Uid) × Accounts Uid
  get_or_create_profile_by_email token a =
      let email = lower (strip token) in
      let id = v.uuid_of_email email in get_or_create dec links id (profile_of_email id email) a

  -- `_get_or_create_profile`
  abbrev pub get_or_create_profile : Claims → Accounts Uid → Answer (Profile Uid) × Accounts Uid
  get_or_create_profile c a = elim c.sub [
    | none ↦ (refused 401, a)
    | some [] ↦ (refused 401, a)
    | some (s ∷ ub) ↦ elim (v.uuid (s ∷ ub)) [
      | none ↦ (refused 401, a)
      | some id ↦ get_or_create dec links id (profile_of_claims id c) a
    ]
  ]

  -- The profile of a token, before its flag is tested.
  abbrev pub profile_of_token : Text → Accounts Uid → Answer (Profile Uid) × Accounts Uid
  profile_of_token token a =
      if v.dev_auth_bypass_enabled
      then get_or_create_profile_by_email token a
      else elim (v.decode_supabase_token token) [
        | none ↦ (refused 401, a)
        | some claims ↦ get_or_create_profile claims a
      ]

  -- `get_current_user`
  unfoldable pub get_current_user : Option Text → Accounts Uid → Answer (Profile Uid) × Accounts Uid
  get_current_user none a = (refused 401, a)
  get_current_user (some []) a = (refused 401, a)
  get_current_user (some (c ∷ s)) a =
      let (answer, b) = profile_of_token (c ∷ s) a in (if_active answer, b)

  -- `get_user_from_token_optional`
  unfoldable pub get_user_from_token_optional :
      Option Text → Accounts Uid → Option (Profile Uid) × Accounts Uid
  get_user_from_token_optional none a = (none, a)
  get_user_from_token_optional (some []) a = (none, a)
  get_user_from_token_optional (some (c ∷ s)) a =
      let (answer, b) = profile_of_token (c ∷ s) a in (or_none (if_active answer), b)

  -- `require_roles`
  unfoldable pub require_roles :
      List UserRole → Option Text → Accounts Uid → Answer (Profile Uid) × Accounts Uid
  unfolding get_current_user
  require_roles roles token a =
      let (answer, b) = get_current_user token a in (if_has_role roles answer, b)

  -- `PUT /users/{user_id}`, with its dependency.
  unfoldable pub put_user :
      Option Text → Uid → UserProfileUpdate → Accounts Uid → Answer (Profile Uid) × Accounts Uid
  unfolding get_current_user
  put_user token id u a =
      let (answer, b) = get_current_user token a in for_user dec links id u answer b
