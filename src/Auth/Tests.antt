-- ===== src/Auth/Tests.antt =====
-- A user with an account, a refresh token and a verification, and the theorems at work on them.
use mogtrade_engine.Base.{
  ⊤, ℕ, ◌≡◌, ◌⊎◌, ◌↔◌, zero, suc, refl, true, false, none, some, List, [], ◌∷◌, ◌++◌, arith,
  string_eq,
}
use mogtrade_engine.Base.Int.{ℤ}
use mogtrade_engine.Database.People.{
  User, Account, provider_credential, RefreshToken, Verification, verification_primed, email_reset,
}
use mogtrade_engine.Database.Session.{Session}
use mogtrade_engine.Database.Session.Rules.{Holds}
use mogtrade_engine.Database.Transaction.{with_transaction}
use mogtrade_engine.Auth.Password.{
  Hashing, verify_password, hash_password, verify_password-hash_password,
}
use mogtrade_engine.Auth.Service.{
  Tokens, RotateAccessTokenInput, CredentialSignInInput, FinishPasswordResetParams,
  rotate_access_token, sign_in_user_by_credentials, finish_password_reset,
}
use mogtrade_engine.Auth.Handlers.{handle_password_reset_confirm}
use mogtrade_engine.Auth.Tokens.{
  IsRotated, IsSignedIn, rotate_access_token-IsRotated, sign_in_user_by_credentials-IsSignedIn,
}
use mogtrade_engine.Auth.Resetting.{
  IsReset, IsInstant, finish_password_reset-IsReset, handle_password_reset_confirm-IsInstant,
}

abbrev replicate : ℕ → ℕ → List ℕ
replicate zero x = []
replicate (suc n) x = x ∷ replicate n x

-- Every text is decoded as the same bytes, and every key is the same: enough for the tests.
abbrev plain : Hashing
plain = record {
  derive = λ p s. replicate 32 1;
  hex_encode = λ b. "hash";
  hex_decode = λ t. some (replicate 16 0 ++ replicate 32 1);
  bytes = λ t. [];
}

abbrev encoder : Tokens
encoder = record {
  encode_with_claims = λ claims id. some "access";
  refresh_token = λ access. "fresh";
}

abbrev user : User
user = record {
  id = "u";
  name = "Ada";
  email = "ada@example.org";
  email_verified = false;
  image = none;
  created_at = 1;
  updated_at = 1;
  prefs = none;
}

abbrev account : Account
account = record {
  id = "a";
  account_id = "ada@example.org";
  provider = provider_credential;
  user_id = "u";
  password = some "hash";
  created_at = 1;
  updated_at = 1;
}

abbrev token : RefreshToken
token = record {
  id = "r";
  user_id = "u";
  token_hash = "old";
  valid_window = 100;
  created_at = 1;
  revoked_at = none;
  device_id = "d";
}

abbrev verification : Verification
verification = record {
  id = "v";
  user_id = "u";
  token = "t";
  valid_window = 3;
  purpose = email_reset;
  ip = "";
  callback_url = none;
  status = verification_primed;
  created_at = some 1;
  used_at = none;
  used = some false;
}

abbrev start : Session ℤ
start = record {
  tables = record {
    orders = [];
    executions = [];
    wallets = [];
    transactions = [];
    entries = [];
    snapshots = [];
    kycs = [];
    users = user ∷ [];
    accounts = account ∷ [];
    refresh_tokens = token ∷ [];
    verifications = verification ∷ [];
  };
  now = 7;
  faults = [];
  in_transaction = true;
  aborted = false;
}

abbrev rotation : RotateAccessTokenInput
rotation = record { refresh_token_id = "n"; device_id = "d"; hash = "old"; lifetime = 50 }

abbrev credentials : CredentialSignInInput
credentials = record {
  refresh_token_id = "n";
  identifier = "ada@example.org";
  password = "secret";
  device_id = "d";
  refresh_token_lifetime = 50;
}

abbrev reset : FinishPasswordResetParams
reset = record { new_password = "better"; verification_token = "t" }

rotate_access_token-IsRotated_example :
    Holds
      (λ pair t. IsRotated rotation pair 7 start.tables t.tables)
      (λ e t. ⊤)
      (rotate_access_token encoder rotation start)
rotate_access_token-IsRotated_example = rotate_access_token-IsRotated encoder rotation start refl

sign_in_user_by_credentials-IsSignedIn_example :
    Holds
      (λ pair t. IsSignedIn plain credentials pair 7 start.tables t.tables)
      (λ e t. ⊤)
      (sign_in_user_by_credentials encoder plain credentials start)
sign_in_user_by_credentials-IsSignedIn_example =
    sign_in_user_by_credentials-IsSignedIn encoder plain credentials start refl

finish_password_reset-IsReset_example :
    Holds
      (λ x t. IsReset plain (some (replicate 16 0)) reset 7 start.tables t.tables)
      (λ e t. t.tables ≡ start.tables)
      (with_transaction (finish_password_reset plain (some (replicate 16 0)) reset) start)
finish_password_reset-IsReset_example =
    finish_password_reset-IsReset plain (some (replicate 16 0)) reset start

handle_password_reset_confirm-IsInstant_example :
    ((handle_password_reset_confirm some 9 10 "t" start).1.tables ≡ start.tables)
    ⊎ IsInstant some 9 10 "t" start
handle_password_reset_confirm-IsInstant_example =
    handle_password_reset_confirm-IsInstant some 9 10 "t" start (omega arith)

hashed : hash_password plain (some (replicate 16 0)) "secret" ≡ some "hash"
unfolding hash_password
hashed = refl

verify_password-hash_password_example :
    (verify_password plain "secret" "hash" ≡ true)
    × ((verify_password plain "guess" "hash" ≡ true) ↔ (
        plain.derive (plain.bytes "guess") (replicate 16 0)
        ≡ plain.derive (plain.bytes "secret") (replicate 16 0)))
verify_password-hash_password_example =
    verify_password-hash_password plain (replicate 16 0) "secret" "guess" "hash" refl refl refl
      hashed
