-- ===== src/Users.antt =====
-- Users: app/core/security.py, app/models/user_profile.py and the change of a profile in
-- app/api/v1/users.py. A token is checked by jose with the keys of the identity provider, which is a
-- parameter, as are the ids that the uuid module makes; letters are lowered as in ASCII.
pub mod Auth
mod Tests
use metroflow_ai_backend.Common.{
  ℕ, ◌+◌, ◌≡◌, Bool, true, false, ◌&&◌, ◌||◌, not, Option, none, some, List, [], ◌∷◌, Text,
  Text-discrete, codes, strip, length, leb, if◌then◌else◌, ◌==◌, ite, map,
}
use metroflow_ai_backend.Common.Dict.{Dict, lookup, insert}
use metroflow_ai_backend.Alerts.{UserRole, passenger}

-- A row of `user_profiles`.
pub record Profile (Uid : Type 0) : Type 0 where
  pub id : Uid
  pub email : Option Text
  pub full_name : Text
  pub username : Option Text
  pub phone : Option Text
  pub avatar_url : Option Text
  pub role : UserRole
  pub is_active : Bool

-- `user_metadata`
pub record Metadata : Type 0 where
  pub meta_full_name : Option Text
  pub meta_name : Option Text
  pub meta_phone : Option Text
  pub meta_username : Option Text
  pub meta_avatar_url : Option Text
  pub meta_picture : Option Text

-- The payload of a token.
pub record Claims : Type 0 where
  pub sub : Option Text
  pub claimed_email : Option Text
  pub claimed_phone : Option Text
  pub metadata : Metadata

-- UserProfileUpdate: the fields that the request sets. A null for a column that may not be null is
-- left out.
pub record UserProfileUpdate : Type 0 where
  pub set_full_name : Option Text
  pub set_username : Option (Option Text)
  pub set_phone : Option (Option Text)
  pub set_avatar_url : Option (Option Text)
  pub set_role : Option UserRole
  pub set_is_active : Option Bool

-- The table, and the entries of the profile cache that have not expired: those in Redis, and those
-- in the local store of each process, by its number.
pub record Accounts (Uid : Type 0) : Type 0 where
  pub profiles : Dict Uid (Profile Uid)
  pub redis : Uid → Option (Profile Uid)
  pub local : ℕ → Uid → Option (Profile Uid)

-- The process that handles a request, and whether its `get_json`, its `set_json` and its `delete`
-- reach Redis. Each of them goes on without an exception where it does not.
pub record Links : Type 0 where
  pub process : ℕ
  pub gets : Bool
  pub sets : Bool
  pub deletes : Bool

-- What a dependency or a handler gives: a value, an HTTPException of a status, or another exception.
pub data Answer (A : Type 0) : Type 0 where
  granted : A → Answer A
  refused : ℕ → Answer A
  raised : Answer A

-- `settings.dev_auth_bypass_enabled`, `_decode_supabase_token` (none for its HTTPException of status
-- 401), `uuid.UUID` and `uuid.uuid5(uuid.NAMESPACE_DNS, …)`.
pub record Verifier (Uid : Type 0) : Type 0 where
  pub dev_auth_bypass_enabled : Bool
  pub decode_supabase_token : Text → Option Claims
  pub uuid : Text → Option Uid
  pub uuid_of_email : Text → Uid

-- `a or b`
abbrev pub or_text : Option Text → Option Text → Option Text
or_text none b = b
or_text (some []) b = b
or_text (some (c ∷ s)) b = some (c ∷ s)

-- `a or b`, for a text `b`
abbrev pub or_name : Option Text → Text → Text
or_name none b = b
or_name (some []) b = b
or_name (some (c ∷ s)) b = c ∷ s

-- `text.lower()`
abbrev pub lower : Text → Text
lower = map (λ c. if leb b'A' c && leb c b'Z' then c + 32 else c)

-- `text.split("@")[0]`
abbrev pub before_at : Text → Text
before_at [] = []
before_at (c ∷ s) = let rest = before_at s in if c == b'@' then [] else c ∷ rest

-- `raw_email.strip().lower() if raw_email else None`
abbrev pub clean_email : Option Text → Option Text
clean_email none = none
clean_email (some []) = none
clean_email (some (c ∷ s)) = some (lower (strip (c ∷ s)))

-- The row that `_get_or_create_profile` makes of a token.
abbrev pub profile_of_claims : {Uid : Type 0} → Uid → Claims → Profile Uid
profile_of_claims id c =
    let email = clean_email c.claimed_email in
    let phone = or_text c.claimed_phone c.metadata.meta_phone in
    record {
      id = id;
      email = email;
      full_name =
          or_name (or_text c.metadata.meta_full_name c.metadata.meta_name) (
            or_name (some (before_at (or_name email []))) (or_name phone (codes "MetroFlow User")));
      username = or_text c.metadata.meta_username none;
      phone = phone;
      avatar_url = or_text c.metadata.meta_avatar_url c.metadata.meta_picture;
      role = passenger;
      is_active = true;
    }

-- The row that `_get_or_create_profile_by_email` makes.
abbrev pub profile_of_email : {Uid : Type 0} → Uid → Text → Profile Uid
profile_of_email id email = record {
  id = id;
  email = some email;
  full_name = before_at email;
  username = none;
  phone = none;
  avatar_url = none;
  role = passenger;
  is_active = true;
}

-- `String(n)`
abbrev pub is_within : ℕ → Option Text → Bool
is_within n none = true
is_within n (some text) = leb (length text) n

-- The lengths of the columns.
abbrev pub fits_columns : {Uid : Type 0} → Profile Uid → Bool
fits_columns p =
    is_within 255 p.email
    && is_within 120 (some p.full_name)
    && is_within 50 p.username
    && is_within 20 p.phone
    && is_within 255 p.avatar_url

-- `unique=True` of the e-mail
abbrev pub is_taken : {Uid : Type 0} → Option Text → Dict Uid (Profile Uid) → Bool
is_taken none profiles = false
is_taken (some email) [] = false
is_taken (some email) (e ∷ profiles) =
    let rest = is_taken (some email) profiles in
    (elim e.1.email [ none ↦ false | some other ↦ ite (Text-discrete other email) true false ])
    || rest
