-- ===== src/Database/Auth/Records.antt =====
-- infra/db/auth.sql.go: the parameters and rows of the queries, and what their texts test.
use mogtrade_engine.Base.{
  ℕ, ◌+◌, leb, ltb, not, ◌&&◌, ◌||◌, Bool, false, Option, none, some, String, string_eq, ◌is◌,
}
use mogtrade_engine.Database.People.{
  User, Account, provider_credential, RefreshToken, Verification, VerificationType,
  verification_pending, is_credential, is_primed, is_some,
}

pub record CreateCredentialAccountParams : Type 0 where
  pub id : String
  pub account_id : String
  pub user_id : String
  pub password : Option String

pub record CreateRefreshTokenParams : Type 0 where
  pub id : String
  pub user_id : String
  pub token_hash : String
  pub valid_window : ℕ
  pub device_id : String

pub record CreateUserParams : Type 0 where
  pub id : String
  pub name : String
  pub email : String
  pub image : Option String

pub record CreateVerificationParams : Type 0 where
  pub id : String
  pub user_id : String
  pub token : String
  pub valid_window : ℕ
  pub purpose : VerificationType
  pub ip : String
  pub callback_url : Option String

-- LookupRefreshTokenByDeviceRow
pub record TokenState : Type 0 where
  pub user_id : String
  pub usable : Option Bool

-- A verification with the instant at which it expires, null where its row has no instant.
pub record VerificationRow : Type 0 where
  pub verification : Verification
  pub expires_at : Option ℕ

abbrev pub new_account : ℕ → CreateCredentialAccountParams → Account
new_account now p = record {
  id = p.id;
  account_id = p.account_id;
  provider = provider_credential;
  user_id = p.user_id;
  password = p.password;
  created_at = now;
  updated_at = now;
}

abbrev pub new_token : ℕ → CreateRefreshTokenParams → RefreshToken
new_token now p = record {
  id = p.id;
  user_id = p.user_id;
  token_hash = p.token_hash;
  valid_window = p.valid_window;
  created_at = now;
  revoked_at = none;
  device_id = p.device_id;
}

abbrev pub new_user : ℕ → CreateUserParams → User
new_user now p = record {
  id = p.id;
  name = p.name;
  email = p.email;
  email_verified = false;
  image = p.image;
  created_at = now;
  updated_at = now;
  prefs = none;
}

abbrev pub new_verification : ℕ → CreateVerificationParams → Verification
new_verification now p = record {
  id = p.id;
  user_id = p.user_id;
  token = p.token;
  valid_window = p.valid_window;
  purpose = p.purpose;
  ip = p.ip;
  callback_url = p.callback_url;
  status = verification_pending;
  created_at = some now;
  used_at = none;
  used = some false;
}

abbrev pub expires_at : Verification → Option ℕ
expires_at v = elim v.created_at [ none ↦ none | some created ↦ some (created + v.valid_window) ]

-- created_at + valid_window <= now()
abbrev pub at_or_before : Option ℕ → ℕ → Bool
at_or_before none now = false
at_or_before (some instant) now = leb instant now

-- (created_at + valid_window) < now()
abbrev pub before : Option ℕ → ℕ → Bool
before none now = false
before (some instant) now = ltb instant now

-- used = false
abbrev pub not_used : Verification → Bool
not_used v = elim v.used [ none ↦ false | some b ↦ not b ]

abbrev pub is_usable : ℕ → RefreshToken → Bool
is_usable now r = not (is_some r.revoked_at) && leb now (r.created_at + r.valid_window)

abbrev pub is_stale : ℕ → RefreshToken → Bool
is_stale now r = is_some r.revoked_at || ltb (r.created_at + r.valid_window) now

abbrev pub credential_of : String → Account → Bool
credential_of account_id a = is_credential a.provider && (a.account_id is account_id)

abbrev pub password_of : String → Account → Bool
password_of user a = is_credential a.provider && (a.user_id is user)

abbrev pub primed_now : String → ℕ → Verification → Bool
primed_now token now v =
    (v.token is token)
    && (is_primed v.status && (not (is_some v.used_at) && at_or_before (expires_at v) now))

abbrev pub unused_now : String → ℕ → Verification → Bool
unused_now token now v = (v.token is token) && (not_used v && at_or_before (expires_at v) now)

abbrev pub found_verification : Option Verification → Option VerificationRow
found_verification none = none
found_verification (some v) = some (record { verification = v; expires_at = expires_at v })

abbrev pub token_state : ℕ → Option RefreshToken → Option TokenState
token_state now none = none
token_state now (some r) = some (record { user_id = r.user_id; usable = some (is_usable now r) })

abbrev pub of_device : String → String → RefreshToken → Bool
of_device device hash r = (r.device_id is device) && (r.token_hash is hash)

abbrev pub live_on : String → RefreshToken → Bool
live_on device r = (r.device_id is device) && not (is_some r.revoked_at)
