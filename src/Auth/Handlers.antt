-- ===== src/Auth/Handlers.antt =====
-- app/controller/auth.go, auth_reset.go and auth_confirm.go: the handlers, after the binding and the
-- validation of their requests. What time.Now and url.Parse give, the environment and the ids are
-- parameters; the events that are published are left out. The handlers of auth.go do not look at
-- the error of their Commit.
use mogtrade_engine.Base.{
  ⊤, ℕ, Bool, true, false, ltb, Option, none, some, String, List, append_text, if◌then◌else◌,
  string_eq, ◌is◌,
}
use mogtrade_engine.Database.Session.{
  Error, account_not_found, invalid_credentials, account_already_exists, refresh_token_unusable,
  user_not_found, refresh_token_not_found, verification_not_found, Session, Result, ok, err,
}
use mogtrade_engine.Database.Transaction.{with_unchecked_commit, with_transaction}
use mogtrade_engine.Database.Auth.{
  VerificationRow, get_unused_verification_by_token, is_email_available,
}
use mogtrade_engine.Auth.Password.{Hashing}
use mogtrade_engine.Auth.Service.{
  Tokens, SignInResult, CredentialSignInInput, CredentialSignUpInput, RotateAccessTokenInput,
  FinishPasswordResetParams, ResetPasswordRequestInput, sign_in_user_by_credentials,
  sign_up_user_by_credentials, rotate_access_token, finish_password_reset, prime_verification,
  begin_password_reset,
}

-- 200, 201, 202, 307, 400, 401, 404, 409, 422 and 500.
pub data Reply (X : Type 0) : Type 0 where
  replied : X → Reply X
  created : Reply X
  accepted : Reply X
  redirected : String → Reply X
  bad_request : Reply X
  unauthorized : Reply X
  missing : Reply X
  conflict : Reply X
  unprocessable : Reply X
  server_error : Reply X

abbrev pub sign_in_refusal : Error → Reply SignInResult
sign_in_refusal invalid_credentials = unauthorized
sign_in_refusal account_not_found = unauthorized
sign_in_refusal e = server_error

abbrev pub register_refusal : Error → Reply ⊤
register_refusal account_already_exists = conflict
register_refusal e = server_error

abbrev pub refresh_refusal : Error → Reply SignInResult
refresh_refusal refresh_token_unusable = unauthorized
refresh_refusal user_not_found = unauthorized
refresh_refusal refresh_token_not_found = unauthorized
refresh_refusal e = server_error

abbrev pub prime_refusal : Error → Reply ⊤
prime_refusal verification_not_found = missing
prime_refusal e = server_error

abbrev pub finish_refusal : Error → Reply ⊤
finish_refusal verification_not_found = unprocessable
finish_refusal account_not_found = missing
finish_refusal e = server_error

-- time.Now().After(expires); a null instant is the zero time.
abbrev pub is_after : ℕ → Option ℕ → Bool
is_after clock none = true
is_after clock (some instant) = ltb instant clock

-- The URL is parsed; what is added to its query is added to a copy of it.
abbrev pub callback_reply : (String → Option String) → Option String → Reply ⊤
callback_reply parse none = accepted
callback_reply parse (some url) = elim (parse url) [
  | none ↦ server_error
  | some text ↦ redirected text
]

module _ {A : Type 0} where
  abbrev pub reply_of :
      {X Y : Type 0}
      → (X → Reply Y)
      → (Error → Reply Y)
      → Result X × Session A
      → Reply Y × Session A
  reply_of f g (ok x, t) = (f x, t)
  reply_of f g (err e, t) = (g e, t)

  unfoldable pub handle_credential_login :
      Tokens → Hashing → CredentialSignInInput → Session A → Reply SignInResult × Session A
  handle_credential_login tokens h csi s =
      reply_of replied sign_in_refusal
        (with_unchecked_commit (sign_in_user_by_credentials tokens h csi) s)

  unfoldable pub handle_credential_register :
      Hashing
      → Option (List ℕ)
      → String
      → String
      → CredentialSignUpInput
      → Session A
      → Reply ⊤ × Session A
  handle_credential_register h salt user_id account_id csi s =
      reply_of (λ r. created) register_refusal
        (with_unchecked_commit (sign_up_user_by_credentials h salt user_id account_id csi) s)

  unfoldable pub handle_access_token_refresh :
      Tokens → RotateAccessTokenInput → Session A → Reply SignInResult × Session A
  handle_access_token_refresh tokens r s =
      reply_of replied refresh_refusal (with_unchecked_commit (rotate_access_token tokens r) s)

  -- The query's email, if it has one.
  unfoldable pub handle_email_exists_check : Option String → Session A → Reply Bool × Session A
  handle_email_exists_check none s = (replied false, s)
  handle_email_exists_check (some email) s =
      reply_of replied (λ e. server_error) (is_email_available email s)

  -- With the text of the URL that is mailed.
  unfoldable pub handle_password_reset_request :
      Hashing
      → Option (List ℕ)
      → Option String
      → String
      → ResetPasswordRequestInput
      → Session A
      → Reply String × Session A
  handle_password_reset_request h salt random host input s =
      reply_of
        (λ output. replied (
          append_text "https://" (
            append_text host
              (append_text "/api/v1/auth/password-reset/confirm?token=" output.raw_token))))
        (λ e. server_error) (with_transaction (begin_password_reset h salt random input) s)

  abbrev pub confirmed :
      (String → Option String)
      → ℕ
      → ℕ
      → String
      → Result VerificationRow × Session A
      → Reply ⊤ × Session A
  confirmed parse clock later token (err e, t) = (server_error, t)
  confirmed parse clock later token (ok v, t) =
      if is_after clock v.expires_at
      then (bad_request, t)
      else reply_of (λ x. callback_reply parse v.verification.callback_url) prime_refusal
          (with_transaction (prime_verification token) (record t { now = later }))

  -- `clock` is what time.Now gives, and `later` the instant of the transaction.
  unfoldable pub handle_password_reset_confirm :
      (String → Option String) → ℕ → ℕ → String → Session A → Reply ⊤ × Session A
  handle_password_reset_confirm parse clock later token s =
      if token is ""
      then (bad_request, s)
      else confirmed parse clock later token (get_unused_verification_by_token token s)

  unfoldable pub handle_password_reset_submit :
      Hashing → Option (List ℕ) → FinishPasswordResetParams → Session A → Reply ⊤ × Session A
  handle_password_reset_submit h salt p s =
      reply_of (λ x. accepted) finish_refusal (with_transaction (finish_password_reset h salt p) s)
