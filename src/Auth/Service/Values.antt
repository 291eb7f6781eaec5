-- ===== src/Auth/Service/Values.antt =====
-- services/auth/auth.go: the values that the service takes and gives.
use mogtrade_engine.Base.{
  ℕ, Bool, false, Option, none, some, String, if◌then◌else◌, string_eq, ◌is◌,
}
use mogtrade_engine.Database.People.{User}
use mogtrade_engine.Database.Session.{
  Error, is_no_rows, nil_dereference, account_not_found, user_not_found, refresh_token_not_found,
  verification_not_found,
}
use mogtrade_engine.Database.Auth.{
  CreateRefreshTokenParams, CreateUserParams, CreateCredentialAccountParams,
}

pub record BearerClaims : Type 0 where
  pub kyc_status : String
  pub display_name : String
  pub email : String
  pub email_verified : Bool
  pub photo : Option String

pub record SignInResult : Type 0 where
  pub access_token : String
  pub refresh_token : String

pub record SignUpResult : Type 0 where
  pub timestamp : ℕ
  pub user_id : String
  pub account_id : String

pub record CredentialSignInInput : Type 0 where
  pub refresh_token_id : String
  pub identifier : String
  pub password : String
  pub device_id : String
  pub refresh_token_lifetime : ℕ

pub record CredentialSignUpInput : Type 0 where
  pub name : String
  pub identifier : String
  pub password : String
  pub email : String
  pub photo : String

pub record RotateAccessTokenInput : Type 0 where
  pub refresh_token_id : String
  pub device_id : String
  pub hash : String
  pub lifetime : ℕ

pub record FinishPasswordResetParams : Type 0 where
  pub new_password : String
  pub verification_token : String

pub record ResetPasswordRequestInput : Type 0 where
  pub ip_address : String
  pub callback_url : String
  pub email : String
  pub valid_window : ℕ
  pub verification_id : String

pub record ResetPasswordRequestOutput : Type 0 where
  pub raw_token : String
  pub user_email : String

-- What the program calls and does not implement: the encoder of the claims, and sha256 over the
-- access token and a fresh salt.
pub record Tokens : Type 0 where
  pub encode_with_claims : BearerClaims → String → Option String
  pub refresh_token : String → String

abbrev pub or_account_not_found : Error → Error
or_account_not_found e = if is_no_rows e then account_not_found else nil_dereference

abbrev pub or_user_not_found : Error → Error
or_user_not_found e = if is_no_rows e then user_not_found else e

abbrev pub or_refresh_token_not_found : Error → Error
or_refresh_token_not_found e = if is_no_rows e then refresh_token_not_found else e

abbrev pub or_verification_not_found : Error → Error
or_verification_not_found e = if is_no_rows e then verification_not_found else e

abbrev pub zero_user : User
zero_user = record {
  id = "";
  name = "";
  email = "";
  email_verified = false;
  image = none;
  created_at = 0;
  updated_at = 0;
  prefs = none;
}

abbrev pub or_zero : Option User → User
or_zero none = zero_user
or_zero (some u) = u

abbrev pub get_user_claims : User → String → BearerClaims
get_user_claims u kyc_status = record {
  kyc_status = kyc_status;
  display_name = u.name;
  email = u.email;
  email_verified = u.email_verified;
  photo = u.image;
}

abbrev pub token_params : String → String → String → String → ℕ → CreateRefreshTokenParams
token_params id user device hash lifetime = record {
  id = id;
  user_id = user;
  token_hash = hash;
  valid_window = lifetime;
  device_id = device;
}

abbrev pub user_params : String → CredentialSignUpInput → CreateUserParams
user_params id csi = record {
  id = id;
  name = csi.name;
  email = csi.email;
  image = if csi.photo is "" then none else some csi.photo;
}

abbrev pub account_params : String → String → String → String → CreateCredentialAccountParams
account_params id user identifier hash = record {
  id = id;
  account_id = identifier;
  user_id = user;
  password = some hash;
}

abbrev pub is_true : Option Bool → Bool
is_true none = false
is_true (some b) = b
