-- ===== src/Auth/Service.antt =====
-- services/auth/auth.go and auth_reset.go: sign-up, sign-in, the rotation of tokens and the two ends
-- of a password's reset. The token encoder, the random salts and tokens, sha256 and the new ids are
-- parameters. A dropped error leaves the zero value, and a nil pointer that is followed panics.
mod Values
use mogtrade_engine.Base.{⊤, ℕ, Bool, Option, none, some, String, List, if◌then◌else◌, string_eq}
use mogtrade_engine.Database.People.{User, email_reset}
use mogtrade_engine.Database.Session.{
  nil_dereference, account_not_found, invalid_credentials, account_already_exists,
  refresh_token_unusable, verification_not_found, other_error, Session, Query, Result, ok, err,
  pure, fail, or_fail, on_error, attempted, ◌>>=◌, ◌>>◌,
}
use mogtrade_engine.Database.Auth as Queries
use mogtrade_engine.Database.Auth.{
  TokenState, create_credential_account, create_refresh_token, create_user, create_verification,
  credential_account_exists_by_identifier, find_credential_account_by_id, find_user_by_email,
  find_user_by_id, get_primed_verification_by_token, invalidate_refresh_tokens_for_device,
  lookup_refresh_token_by_device, mark_verification_used, set_user_credential_password,
  unused_verification_exists_by_token,
}
use mogtrade_engine.Kyc.Service.{LookupKycRecord, get_by_user}
use mogtrade_engine.Kyc.Handlers.{is_kyc_not_found}
use mogtrade_engine.Auth.Password.{Hashing, verify_password, hash_password}
unfoldable pub use Values.*

module _ {A : Type 0} where
  -- A token that is revoked or whose window has passed is not usable.
  abbrev pub check_usable : TokenState → Query A ⊤
  check_usable row = if is_true row.usable then pure tt else fail refresh_token_unusable

  -- An account without a password has a nil one.
  abbrev pub check_password : Hashing → String → Option String → Query A ⊤
  check_password h pass none = fail nil_dereference
  check_password h pass (some hash) =
      if verify_password h pass hash then pure tt else fail invalid_credentials

  abbrev pub status_of : Result LookupKycRecord × Session A → Result String × Session A
  status_of (ok k, s) = (ok k.status, s)
  status_of (err e, s) = if is_kyc_not_found e then (ok "pending", s) else (err e, s)

  -- The claim of a user without a record is "pending".
  abbrev pub kyc_claim : String → Query A String
  kyc_claim user s = status_of (get_by_user user s)

  module _ (tokens : Tokens) where
    unfoldable pub generate_auth_token_pairs : User → String → Query A SignInResult
    generate_auth_token_pairs u kyc_status = do
      access ←
          or_fail (tokens.encode_with_claims (get_user_claims u kyc_status) u.id)
            (other_error "token")
      pure (record { access_token = access; refresh_token = tokens.refresh_token access })

    -- The end of signing in and of rotating: the tokens of the device are revoked, with the error
    -- dropped, and one is made.
    unfoldable pub issue : String → String → String → ℕ → SignInResult → Query A SignInResult
    issue id user device lifetime pair = do
      attempted (invalidate_refresh_tokens_for_device device)
      create_refresh_token (token_params id user device pair.refresh_token lifetime)
      pure pair

    unfoldable pub rotate_access_token : RotateAccessTokenInput → Query A SignInResult
    rotate_access_token r = do
      row ← on_error or_refresh_token_not_found (lookup_refresh_token_by_device r.device_id r.hash)
      check_usable row
      user ← on_error or_user_not_found (find_user_by_id row.user_id)
      status ← kyc_claim user.id
      pair ← generate_auth_token_pairs user status
      issue r.refresh_token_id row.user_id r.device_id r.lifetime pair

    unfoldable pub sign_in_user_by_credentials :
        Hashing → CredentialSignInInput → Query A SignInResult
    sign_in_user_by_credentials h csi = do
      account ← on_error or_account_not_found (find_credential_account_by_id csi.identifier)
      check_password h csi.password account.password
      found ← attempted (find_user_by_id account.user_id)
      status ← kyc_claim (or_zero found).id
      pair ← generate_auth_token_pairs (or_zero found) status
      issue csi.refresh_token_id account.user_id csi.device_id csi.refresh_token_lifetime pair

  -- The salt is that of the hash. The error of the account's creation is overwritten.
  unfoldable pub sign_up_user_by_credentials :
      Hashing → Option (List ℕ) → String → String → CredentialSignUpInput → Query A SignUpResult
  sign_up_user_by_credentials h salt user_id account_id csi = do
    exists ← credential_account_exists_by_identifier csi.identifier
    if exists then fail account_already_exists else pure tt
    timestamp ← create_user (user_params user_id csi)
    hash ← or_fail (hash_password h salt csi.password) (other_error "salt")
    attempted (create_credential_account (account_params account_id user_id csi.identifier hash))
    pure (record { timestamp = timestamp; user_id = user_id; account_id = account_id })

  unfoldable pub finish_password_reset :
      Hashing → Option (List ℕ) → FinishPasswordResetParams → Query A ⊤
  finish_password_reset h salt p = do
    v ← on_error or_verification_not_found (get_primed_verification_by_token p.verification_token)
    exists ← credential_account_exists_by_identifier v.verification.user_id
    if exists then pure tt else fail account_not_found
    hash ← or_fail (hash_password h salt p.new_password) (other_error "salt")
    mark_verification_used p.verification_token
    set_user_credential_password (some hash) v.verification.user_id

  unfoldable pub prime_verification : String → Query A ⊤
  prime_verification token = do
    exists ← unused_verification_exists_by_token token
    if exists then Queries.prime_verification token else fail verification_not_found

  unfoldable pub user_exists_with_id : String → Query A Bool
  user_exists_with_id id = Queries.user_exists_with_id id

  -- The token that is mailed is the raw one, the one that is stored its hash.
  unfoldable pub begin_password_reset :
      Hashing
      → Option (List ℕ)
      → Option String
      → ResetPasswordRequestInput
      → Query A ResetPasswordRequestOutput
  begin_password_reset h salt random input = do
    user ← on_error or_user_not_found (find_user_by_email input.email)
    raw ← or_fail random (other_error "random")
    hashed ← or_fail (hash_password h salt raw) (other_error "salt")
    create_verification (record {
      id = input.verification_id;
      user_id = user.id;
      token = hashed;
      valid_window = input.valid_window;
      purpose = email_reset;
      ip = input.ip_address;
      callback_url = some input.callback_url;
    })
    pure (record { raw_token = raw; user_email = user.email })
