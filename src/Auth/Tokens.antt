-- ===== src/Auth/Tokens.antt =====
-- services/auth/auth.go: what signing in and rotating a token do to the refresh tokens, inside a
-- transaction.
use mogtrade_engine.Base.{
  ℕ, ◌≡◌, refl, inl, inr, Bool-cases, true, Option, none, some, String, string_eq, ◌is◌, arith,
}
use mogtrade_engine.Database.People.{Account, RefreshToken}
use mogtrade_engine.Database.Rows.{Tables}
use mogtrade_engine.Database.Table.{first_where}
use mogtrade_engine.Database.Session.{Session}
use mogtrade_engine.Database.Session.Rules.{
  Holds, done, failed, Same, Same-trans, Holds-after, Holds-mono, Holds-handled, dropped-Holds,
  one-Holds, one_now-Holds,
}
use mogtrade_engine.Database.Auth.{
  TokenState, token_state, is_usable, of_device, credential_of, lookup_refresh_token_by_device,
  find_user_by_id, find_credential_account_by_id,
}
use mogtrade_engine.Auth.Password.{Hashing, verify_password}
use mogtrade_engine.Auth.Service.{
  Tokens, SignInResult, is_true, RotateAccessTokenInput, CredentialSignInInput, token_params,
  or_account_not_found, or_refresh_token_not_found, or_user_not_found, or_zero, check_usable,
  check_password, rotate_access_token, sign_in_user_by_credentials,
}
use mogtrade_engine.Auth.Issuing.{NothingSaid, IsIssued, kyc_claim-Reads, pairs-Holds, issue_later}

token_found :
    (now : ℕ) (o : Option RefreshToken) (row : TokenState)
    → token_state now o ≡ some row
    → (old : RefreshToken) × (o ≡ some old)
      × (row.user_id ≡ old.user_id)
      × (row.usable ≡ some (is_usable now old))
token_found now none row h = absurd (ground arith)
token_found now (some old) row h = (old, refl, ground arith, ground arith)

module _ {A : Type 0} where
  -- A token that stands and is usable is rotated.
  pub record IsRotated (r : RotateAccessTokenInput) (pair : SignInResult) (now : ℕ) (s t : Tables A)
      : Type 0 where
    pub old : RefreshToken
    pub found : first_where (of_device r.device_id r.hash) s.refresh_tokens ≡ some old
    pub usable : is_usable now old ≡ true
    pub issued :
        IsIssued
          (token_params r.refresh_token_id old.user_id r.device_id pair.refresh_token r.lifetime)
          now
          s
          t

  check_usable-Holds :
      (row : TokenState) (s : Session A)
      → Holds (λ x t. (is_true row.usable ≡ true) × (t ≡ s)) NothingSaid (check_usable row s)
  check_usable-Holds row s = elim (Bool-cases (is_true row.usable)) [
    | inl usable ↦ rw usable (done (refl, refl))
    | inr refused ↦ rw refused (failed tt)
  ]

  -- Inside a transaction, RotateAccessToken succeeds only with the hash of a token of the device
  -- that is not revoked and whose window has not passed; then every token of the device is revoked,
  -- and a new one, of the same user, is the only one of the device that is not.
  pub rotate_access_token-IsRotated :
      (tokens : Tokens) (r : RotateAccessTokenInput) (s : Session A)
      → s.in_transaction ≡ true
      → Holds
          (λ pair t. IsRotated r pair s.now s.tables t.tables)
          NothingSaid
          (rotate_access_token tokens r s)
  unfolding rotate_access_token lookup_refresh_token_by_device find_user_by_id
  rotate_access_token-IsRotated tokens r s inside =
      Holds-after _ _
        (Holds-handled {F = NothingSaid} or_refresh_token_not_found _
          (one_now-Holds
            (λ now t. token_state now (first_where (of_device r.device_id r.hash) t.refresh_tokens))
            s)
          (λ e t k. tt))
        (λ e t k. tt)
        (λ row t looked.
          Holds-after _ _ (check_usable-Holds row t) (λ e u k. tt)
            (λ x u checked.
              Holds-after _ _
                (Holds-handled {F = NothingSaid} or_user_not_found _
                  (one-Holds (λ y. first_where (λ n. n.id is row.user_id) y.users) u) (λ e v k. tt))
                (λ e v k. tt)
                (λ user v k.
                  Holds-after _ _ (kyc_claim-Reads user.id v) (λ e w l. tt)
                    (λ status w l.
                      Holds-after _ _ (pairs-Holds tokens user status w) (λ e x2 m. tt)
                        (λ pair z m.
                          let (old, is_old, owner, usable) = token_found s.now _ row looked.1 in
                          Holds-mono _
                            (issue_later tokens r.refresh_token_id row.user_id r.device_id
                              r.lifetime pair s z inside
                              (rw m (
                                Same-trans s v w (Same-trans s u v (rw checked.1 looked.0) k.0) l)))
                            (λ e q n. tt)
                            (λ y q n. record {
                              old = old;
                              found = is_old;
                              usable = ground (arith, checked.0, usable);
                              issued = rw (← owner) n;
                            }))))))

  -- An account whose password is given is signed in.
  pub record IsSignedIn (h : Hashing) (csi : CredentialSignInInput) (pair : SignInResult) (now : ℕ)
      (s t : Tables A) : Type 0 where
    pub account : Account
    pub found : first_where (credential_of csi.identifier) s.accounts ≡ some account
    pub hash : String
    pub kept : account.password ≡ some hash
    pub matches : verify_password h csi.password hash ≡ true
    pub issued :
        IsIssued
          (token_params csi.refresh_token_id account.user_id csi.device_id pair.refresh_token
            csi.refresh_token_lifetime)
          now
          s
          t

  check_password-Holds :
      (h : Hashing) (pass : String) (kept : Option String) (s : Session A)
      → Holds
          (λ x t.
            ((hash : String) × (kept ≡ some hash) × (verify_password h pass hash ≡ true)) × (t ≡ s))
          NothingSaid
          (check_password h pass kept s)
  check_password-Holds h pass none s = failed tt
  check_password-Holds h pass (some hash) s = elim (Bool-cases (verify_password h pass hash)) [
    | inl right ↦ rw right (done ((hash, refl, right), refl))
    | inr wrong ↦ rw wrong (failed tt)
  ]

  -- Inside a transaction, SignInUserByCredentials succeeds only with the password of the credential
  -- account of the identifier; then every token of the device is revoked, and a new one, of the
  -- account's user, is the only one of the device that is not.
  pub sign_in_user_by_credentials-IsSignedIn :
      (tokens : Tokens) (h : Hashing) (csi : CredentialSignInInput) (s : Session A)
      → s.in_transaction ≡ true
      → Holds
          (λ pair t. IsSignedIn h csi pair s.now s.tables t.tables)
          NothingSaid
          (sign_in_user_by_credentials tokens h csi s)
  unfolding sign_in_user_by_credentials find_credential_account_by_id find_user_by_id
  sign_in_user_by_credentials-IsSignedIn tokens h csi s inside =
      Holds-after _ _
        (Holds-handled {F = NothingSaid} or_account_not_found _
          (one-Holds (λ t. first_where (credential_of csi.identifier) t.accounts) s) (λ e t k. tt))
        (λ e t k. tt)
        (λ account t looked.
          Holds-after _ _ (check_password-Holds h csi.password account.password t) (λ e u k. tt)
            (λ x u checked.
              Holds-after _ _
                (dropped-Holds {R = λ y v. Same u v} {F = NothingSaid} _
                  (one-Holds (λ y. first_where (λ n. n.id is account.user_id) y.users) u)
                  (λ e v k. tt) (λ e v k. k.0) (λ y v k. k.0))
                (λ e v k. tt)
                (λ user v k.
                  Holds-after _ _ (kyc_claim-Reads (or_zero user).id v) (λ e w l. tt)
                    (λ status w l.
                      Holds-after _ _ (pairs-Holds tokens (or_zero user) status w) (λ e x2 m. tt)
                        (λ pair z m.
                          let (hash, kept, right) = checked.0 in
                          Holds-mono _
                            (issue_later tokens csi.refresh_token_id account.user_id csi.device_id
                              csi.refresh_token_lifetime pair s z inside
                              (rw m
                                (Same-trans s v w (Same-trans s u v (rw checked.1 looked.0) k) l)))
                            (λ e q n. tt)
                            (λ y q n. record {
                              account = account;
                              found = looked.1;
                              hash = hash;
                              kept = kept;
                              matches = right;
                              issued = n;
                            }))))))
