-- ===== src/Database/Auth.antt =====
-- infra/db/auth.sql.go: the queries on the users, their accounts, refresh tokens and verifications.
-- The view refresh_token_states is that of migration 000021.
mod Records
use mogtrade_engine.Base.{
  ⊤, ℕ, ◌+◌, not, ◌&&◌, Bool, true, Option, none, some, String, List, [], ◌∷◌, ◌++◌, map,
  if◌then◌else◌, string_eq, ◌is◌,
}
use mogtrade_engine.Database.People.{User, Account, verification_primed}
use mogtrade_engine.Database.Rows.{Tables}
use mogtrade_engine.Database.Table.{first_where, any_where, update_where, where_holds}
use mogtrade_engine.Database.Session.{Query, ok, read, read_now, write, write_unique, one, ◌>>=◌}
unfoldable pub use Records.*

module _ {A : Type 0} where
  unfoldable pub account_violates : CreateCredentialAccountParams → Tables A → Option String
  account_violates p t =
      if any_where (λ a. a.id is p.id) t.accounts
      then some "account_pkey"
      else if any_where (credential_of p.account_id) t.accounts
      then some "account_provider_user_id_uidx"
      else none

  unfoldable pub user_violates : CreateUserParams → Tables A → Option String
  user_violates p t =
      if any_where (λ u. u.id is p.id) t.users
      then some "user_pkey"
      else if any_where (λ u. u.email is p.email) t.users
      then some "user_email_key"
      else none

  unfoldable pub verification_violates : CreateVerificationParams → Tables A → Option String
  verification_violates p t =
      if any_where (λ v. v.id is p.id) t.verifications
      then some "verifications_pkey"
      else if any_where (λ v. v.token is p.token) t.verifications
      then some "verifications_token_key"
      else none

  unfoldable pub token_violates : CreateRefreshTokenParams → Tables A → Option String
  token_violates p t =
      if any_where (λ r. r.id is p.id) t.refresh_tokens then some "refresh_tokens_pkey" else none

  -- returning created_at
  abbrev pub stamped : Query A ⊤ → Query A ℕ
  stamped m = m >>= λ x s. (ok s.now, s)

  abbrev pub account_added : CreateCredentialAccountParams → ℕ → Tables A → Tables A
  account_added p now t = record t { accounts = t.accounts ++ new_account now p ∷ [] }

  abbrev pub user_added : CreateUserParams → ℕ → Tables A → Tables A
  user_added p now t = record t { users = t.users ++ new_user now p ∷ [] }

  abbrev pub token_added : CreateRefreshTokenParams → ℕ → Tables A → Tables A
  token_added p now t = record t { refresh_tokens = t.refresh_tokens ++ new_token now p ∷ [] }

  abbrev pub verification_added : CreateVerificationParams → ℕ → Tables A → Tables A
  verification_added p now t = record t {
    verifications = t.verifications ++ new_verification now p ∷ [];
  }

  abbrev pub tokens_revoked : String → ℕ → Tables A → Tables A
  tokens_revoked device now t = record t {
    refresh_tokens =
        update_where (live_on device) (λ r. record r { revoked_at = some now }) t.refresh_tokens;
  }

  abbrev pub marked_used : String → ℕ → Tables A → Tables A
  marked_used token now t = record t {
    verifications =
        update_where (λ v. v.token is token) (λ v. record v { used_at = some now }) t.verifications;
  }

  abbrev pub marked_primed : String → ℕ → Tables A → Tables A
  marked_primed token now t = record t {
    verifications =
        update_where (λ v. v.token is token) (λ v. record v { status = verification_primed })
          t.verifications;
  }

  abbrev pub password_set : Option String → String → ℕ → Tables A → Tables A
  password_set password user now t = record t {
    accounts =
        update_where (password_of user) (λ a. record a { password = password; updated_at = now })
          t.accounts;
  }

  unfoldable pub create_credential_account : CreateCredentialAccountParams → Query A ℕ
  create_credential_account p = stamped (write_unique (account_violates p) (account_added p))

  unfoldable pub create_refresh_token : CreateRefreshTokenParams → Query A ⊤
  create_refresh_token p = write_unique (token_violates p) (token_added p)

  unfoldable pub create_user : CreateUserParams → Query A ℕ
  create_user p = stamped (write_unique (user_violates p) (user_added p))

  unfoldable pub create_verification : CreateVerificationParams → Query A ⊤
  create_verification p = write_unique (verification_violates p) (verification_added p)

  unfoldable pub credential_account_exists_by_identifier : String → Query A Bool
  credential_account_exists_by_identifier account_id =
      read (λ t. any_where (credential_of account_id) t.accounts)

  unfoldable pub find_credential_account_by_id : String → Query A Account
  find_credential_account_by_id account_id s =
      one (read (λ t. first_where (credential_of account_id) t.accounts) s)

  unfoldable pub find_user_by_email : String → Query A User
  find_user_by_email email s = one (read (λ t. first_where (λ u. u.email is email) t.users) s)

  unfoldable pub find_user_by_id : String → Query A User
  find_user_by_id id s = one (read (λ t. first_where (λ u. u.id is id) t.users) s)

  unfoldable pub get_primed_verification_by_token : String → Query A VerificationRow
  get_primed_verification_by_token token s = one (
      read_now (λ now t. found_verification (first_where (primed_now token now) t.verifications)) s)

  unfoldable pub get_unused_verification_by_token : String → Query A VerificationRow
  get_unused_verification_by_token token s = one (
      read_now (λ now t. found_verification (first_where (unused_now token now) t.verifications)) s)

  unfoldable pub invalidate_refresh_tokens_for_device : String → Query A ⊤
  invalidate_refresh_tokens_for_device device = write (tokens_revoked device)

  unfoldable pub is_email_available : String → Query A Bool
  is_email_available email = read (λ t. not (any_where (λ u. u.email is email) t.users))

  -- Not called by the program.
  unfoldable pub list_unused_verifications_by_user : String → Query A (List VerificationRow)
  list_unused_verifications_by_user user = read (λ t.
      map (λ v. record { verification = v; expires_at = expires_at v })
        (where_holds (λ v. (v.user_id is user) && not_used v) t.verifications))

  unfoldable pub lookup_refresh_token_by_device : String → String → Query A TokenState
  lookup_refresh_token_by_device device hash s =
      one (
        read_now (λ now t. token_state now (first_where (of_device device hash) t.refresh_tokens))
          s)

  unfoldable pub mark_verification_used : String → Query A ⊤
  mark_verification_used token = write (marked_used token)

  unfoldable pub prime_verification : String → Query A ⊤
  prime_verification token = write (marked_primed token)

  unfoldable pub remove_stale_refresh_tokens : Query A ⊤
  remove_stale_refresh_tokens = write (λ now t. record t {
    refresh_tokens = where_holds (λ r. not (is_stale now r)) t.refresh_tokens;
  })

  unfoldable pub set_user_credential_password : Option String → String → Query A ⊤
  set_user_credential_password password user = write (password_set password user)

  unfoldable pub unused_verification_exists_by_token : String → Query A Bool
  unused_verification_exists_by_token token = read_now (λ now t.
      any_where (λ v. (v.token is token) && (not_used v && before (expires_at v) now))
        t.verifications)

  unfoldable pub user_exists_with_id : String → Query A Bool
  user_exists_with_id id = read (λ t. any_where (λ u. u.id is id) t.users)

  unfoldable pub verify_user_email : String → Query A ⊤
  verify_user_email id = write (λ now t. record t {
    users =
        update_where (λ u. u.id is id) (λ u. record u { email_verified = true; updated_at = now })
          t.users;
  })
