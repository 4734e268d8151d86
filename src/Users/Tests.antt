-- ===== src/Users/Tests.antt =====
-- Requests of users at concrete inputs.
use metroflow_ai_backend.Common.{
  ℕ, ◌≡◌, refl, Bool, true, false, none, some, List, [], ◌∷◌, Text, Text-discrete, codes, arith,
  ℕ_discrete, length,
}
use metroflow_ai_backend.Common.Dict.{lookup, insert}
use metroflow_ai_backend.Alerts.{UserRole, admin, operator, passenger}
use metroflow_ai_backend.Users.{
  Profile, Metadata, Claims, UserProfileUpdate, Accounts, Links, granted, refused, Verifier,
  profile_of_claims,
}
use metroflow_ai_backend.Users.Auth.{
  UserRole-discrete, has_role, with_cached, get_current_user, get_user_from_token_optional,
  require_roles, put_user,
}
use metroflow_ai_backend.Users.Auth.Changes.{IsKeyed, IsFresh, in_table, shared, by_process}
use metroflow_ai_backend.Users.Auth.Requests
use metroflow_ai_backend.Users.Auth.Access
use metroflow_ai_backend.Users.Auth.Privileges

program : Unit {0}
unfolding lookup insert ℕ_discrete Text-discrete UserRole-discrete get_current_user
    get_user_from_token_optional require_roles put_user
program = tt

abbrev nothing_known : Metadata
nothing_known = record {
  meta_full_name = none;
  meta_name = some [];
  meta_phone = none;
  meta_username = none;
  meta_avatar_url = none;
  meta_picture = none;
}

abbrev claims : Text → Claims
claims token = record {
  sub = some token;
  claimed_email = some (codes " Ann@B.c");
  claimed_phone = none;
  metadata = nothing_known;
}

-- A token is its subject, and an id is the length of a text.
abbrev verifier : Verifier ℕ
verifier = record {
  dev_auth_bypass_enabled = false;
  decode_supabase_token = λ token. some (claims token);
  uuid = λ text. some (length text);
  uuid_of_email = λ email. length email;
}

abbrev profile : ℕ → UserRole → Bool → Profile ℕ
profile id role active = record {
  id = id;
  email = none;
  full_name = codes "Ben";
  username = none;
  phone = none;
  avatar_url = none;
  role = role;
  is_active = active;
}

abbrev accounts : Accounts ℕ
accounts = record {
  profiles = (1, profile 1 admin true) ∷ (2, profile 2 operator true) ∷ [];
  redis = λ id. none;
  local = λ process id. none;
}

abbrev online : Links
online = record { process = 0; gets = true; sets = true; deletes = true }

abbrev offline : Links
offline = record { process = 0; gets = false; sets = false; deletes = false }

abbrev staff : List UserRole
staff = admin ∷ operator ∷ []

named_by_email : (profile_of_claims {Uid = ℕ} 3 (claims (codes "abc"))).full_name ≡ codes "ann"
named_by_email = refl

-- The operator works, the admin disables the operator, who is refused then.
abbrev worked : Accounts ℕ
worked = (require_roles ℕ_discrete verifier online staff (some (codes "op")) accounts).1

abbrev disables : UserProfileUpdate
disables = record {
  set_full_name = none;
  set_username = none;
  set_phone = none;
  set_avatar_url = none;
  set_role = none;
  set_is_active = some false;
}

abbrev disabled : Accounts ℕ
disabled = (put_user ℕ_discrete verifier online (some (codes "a")) 2 disables worked).1

is_refused :
    (require_roles ℕ_discrete verifier online staff (some (codes "op")) disabled).0 ≡ refused 403
unfolding program
is_refused = refl

-- A request that has read the row before writes it to the cache after the change.
stale_entry_lets_through :
    (require_roles ℕ_discrete verifier online staff
      (some (codes "op"))
      (with_cached ℕ_discrete true 0 2 (some (profile 2 operator true)) disabled)).0
    ≡ granted (profile 2 operator true)
unfolding program
stale_entry_lets_through = refl

-- The deletion does not reach Redis, which is read again by the next request.
lost_deletion_lets_through :
    (require_roles ℕ_discrete verifier online staff
      (some (codes "op"))
      (put_user ℕ_discrete verifier offline (some (codes "a")) 2 disables worked).1).0
    ≡ granted (profile 2 operator true)
unfolding program
lost_deletion_lets_through = refl

accounts-IsKeyed : IsKeyed ℕ_discrete accounts
unfolding program
accounts-IsKeyed id p found = ground (arith, found)

accounts-IsFresh : IsFresh ℕ_discrete accounts
accounts-IsFresh id p found = absurd (ground (arith, found))

-- The operator has worked with Redis away for the writes, and works again.
abbrev worked_offline : Accounts ℕ
worked_offline = (get_current_user ℕ_discrete verifier offline (some (codes "op")) accounts).1

require_roles_lem_example :
    (lookup ℕ_discrete 2 worked_offline.profiles ≡ some (profile 2 operator true))
    × (true ≡ true)
    × (has_role operator staff ≡ true)
unfolding program
require_roles_lem_example =
    Access.require_roles_lem ℕ_discrete verifier online staff (some (codes "op")) accounts
      worked_offline (profile 2 operator true) accounts-IsKeyed accounts-IsFresh
      (Requests.next Requests.here (Requests.authenticates offline (some (codes "op")))) (tt, refl)
      refl refl

abbrev one_passenger : Accounts ℕ
one_passenger = record {
  profiles = (2, profile 2 passenger true) ∷ [];
  redis = λ id. none;
  local = λ process id. none;
}

one_passenger-IsKeyed : IsKeyed ℕ_discrete one_passenger
unfolding program
one_passenger-IsKeyed id p found = ground (arith, found)

one_passenger-HasNoAdmin : Privileges.HasNoAdmin ℕ_discrete one_passenger
unfolding program
one_passenger-HasNoAdmin p (in_table id found) = ground (arith, found)
one_passenger-HasNoAdmin p (shared id found) = absurd (ground (arith, found))
one_passenger-HasNoAdmin p (by_process k id found) = absurd (ground (arith, found))

Reach-IsAsBefore_example :
    Privileges.IsAsBefore ℕ_discrete one_passenger 3 (profile_of_claims 3 (claims (codes "new")))
unfolding program
Reach-IsAsBefore_example =
    Privileges.Reach-IsAsBefore ℕ_discrete verifier one_passenger
      (put_user ℕ_discrete verifier offline (some (codes "new")) 2 disables one_passenger).1 3
      (profile_of_claims 3 (claims (codes "new"))) one_passenger-HasNoAdmin one_passenger-IsKeyed
      (Requests.next Requests.here (Requests.puts offline (some (codes "new")) 2 disables)) refl
