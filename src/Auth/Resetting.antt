-- ===== src/Auth/Resetting.antt =====
-- services/auth/auth.go and app/controller/auth_confirm.go: when a verification is confirmed, and
-- when a password is reset.
use mogtrade_engine.Base.{
  ⊤, ℕ, ◌≤◌, ◌≡◌, ◌∙◌, refl, sym, ap, ◌⊎◌, inl, inr, Bool-cases, Option-cases, Bool, true, false,
  Option, none, some, String, List, string_eq, ◌is◌, if◌then◌else◌, arith,
}
use mogtrade_engine.Database.People.{Verification, is_some, is_primed}
use mogtrade_engine.Database.Rows.{Tables}
use mogtrade_engine.Database.Table.{first_where, first_where-holds, any_where}
use mogtrade_engine.Database.Session.{Error, Session, Result, ok, err, pure, fail}
use mogtrade_engine.Database.Session.Rules.{
  Holds, done, failed, Same, Writes-then, Holds-after, Holds-mono, Holds-handled, Missing,
  read-Holds, one_now-Holds, or_fail-Holds, write-Holds,
}
use mogtrade_engine.Database.Transaction.{with_transaction, with_transaction-Holds}
use mogtrade_engine.Database.Auth.{
  VerificationRow, expires_at, at_or_before, primed_now, unused_now, credential_of,
  found_verification, marked_used, password_set, get_primed_verification_by_token,
  get_unused_verification_by_token, credential_account_exists_by_identifier, mark_verification_used,
  set_user_credential_password,
}
use mogtrade_engine.Auth.Password.{Hashing, hash_password}
use mogtrade_engine.Auth.Service.{
  FinishPasswordResetParams, or_verification_not_found, finish_password_reset,
}
use mogtrade_engine.Auth.Handlers.{is_after, confirmed, handle_password_reset_confirm}

row_found :
    (o : Option Verification) (row : VerificationRow)
    → found_verification o ≡ some row
    → (o ≡ some row.verification) × (row.expires_at ≡ expires_at row.verification)
row_found none row h = absurd (ground arith)
row_found (some v) row h = (ground arith, ground arith)

module _ {A : Type 0} where
  abbrev NothingSaid : Error → Session A → Type 0
  NothingSaid e t = ⊤

  -- What a reset that is done has found and changed.
  pub record IsReset (h : Hashing) (salt : Option (List ℕ)) (p : FinishPasswordResetParams)
      (now : ℕ) (s t : Tables A) : Type 0 where
    pub verification : Verification
    pub found :
        first_where (primed_now p.verification_token now) s.verifications ≡ some verification
    pub primed : is_primed verification.status ≡ true
    pub unused : is_some verification.used_at ≡ false
    pub passed : at_or_before (expires_at verification) now ≡ true
    pub account : any_where (credential_of verification.user_id) s.accounts ≡ true
    pub hash : String
    pub hashed : hash_password h salt p.new_password ≡ some hash
    pub tables :
        t
        ≡ password_set (some hash) verification.user_id now (marked_used p.verification_token now s)

  exists-Holds :
      (b : Bool) (e : Error) (s : Session A)
      → Holds (λ x t. (b ≡ true) × (t ≡ s)) NothingSaid ((if b then pure tt else fail e) s)
  exists-Holds true e s = done (refl, refl)
  exists-Holds false e s = failed tt

  finish-Holds :
      (h : Hashing) (salt : Option (List ℕ)) (p : FinishPasswordResetParams) (s : Session A)
      → Holds
          (λ x t. IsReset h salt p s.now s.tables t.tables)
          NothingSaid
          (finish_password_reset h salt p s)
  unfolding finish_password_reset get_primed_verification_by_token
      credential_account_exists_by_identifier mark_verification_used set_user_credential_password
  finish-Holds h salt p s =
      Holds-after _ _
        (Holds-handled {F = NothingSaid} or_verification_not_found _
          (one_now-Holds
            (λ now t.
              found_verification
                (first_where (primed_now p.verification_token now) t.verifications))
            s)
          (λ e t k. tt))
        (λ e t k. tt)
        (λ row t looked.
          Holds-after _ _
            (read-Holds (λ y. any_where (credential_of row.verification.user_id) y.accounts) t)
            (λ e u k. tt)
            (λ exists u k.
              Holds-after _ _ (exists-Holds exists _ u) (λ e v l. tt)
                (λ x v l.
                  Holds-after _ _ (or_fail-Holds (hash_password h salt p.new_password) _ v)
                    (λ e w m. tt)
                    (λ hash w m.
                      Holds-after _ _ (write-Holds (marked_used p.verification_token) w)
                        (λ e x2 n. tt)
                        (λ y z used.
                          Holds-mono _
                            (write-Holds (password_set (some hash) row.verification.user_id) z)
                            (λ e q n. tt)
                            (λ a q set.
                              let (is_found, expiry) = row_found _ row looked.1 in
                              let holds =
                                first_where-holds (primed_now p.verification_token s.now)
                                  s.tables.verifications row.verification is_found in
                              let same : w.tables ≡ s.tables =
                                ap (λ b. b.tables) m.1
                                ∙ ap (λ b. b.tables) l.1
                                ∙ k.0.tables
                                ∙ looked.0.tables in
                              let clock : w.now ≡ s.now =
                                ap (λ b. b.now) m.1
                                ∙ ap (λ b. b.now) l.1
                                ∙ k.0.now
                                ∙ looked.0.now in
                              record {
                                verification = row.verification;
                                found = is_found;
                                primed = ground (arith, holds);
                                unused = ground (arith, holds);
                                passed = ground (arith, holds);
                                account = rw (← looked.0.tables) (sym k.1 ∙ l.0);
                                hash = hash;
                                hashed = m.0;
                                tables =
                                    (Writes-then (marked_used p.verification_token)
                                      (password_set (some hash) row.verification.user_id) w z q used
                                      set).0
                                    ∙ rw (same, clock) refl;
                              }))))))

  -- A password is reset only by a primed verification that was not used and whose window has passed,
  -- and only where the id of its user is also the identifier of a credential account; then the
  -- verification is marked as used and the user's password is the new one's hash. Otherwise nothing
  -- changes.
  pub finish_password_reset-IsReset :
      (h : Hashing) (salt : Option (List ℕ)) (p : FinishPasswordResetParams) (s : Session A)
      → Holds
          (λ x t. IsReset h salt p s.now s.tables t.tables)
          (λ e t. t.tables ≡ s.tables)
          (with_transaction (finish_password_reset h salt p) s)
  finish_password_reset-IsReset h salt p s =
      with_transaction-Holds (λ x t. IsReset h salt p s.now s.tables t)
        (finish_password_reset h salt p) s
        (λ from begun. rw (← begun.tables, ← begun.now) (finish-Holds h salt p from))

  module _ (parse : String → Option String) (clock later : ℕ) (token : String) (s : Session A) where
    -- The verification expires at the instant of the request, by both clocks.
    pub record IsInstant : Type 0 where
      pub verification : Verification
      pub found : first_where (unused_now token s.now) s.tables.verifications ≡ some verification
      pub expiry : expires_at verification ≡ some s.now
      pub clocks : clock ≡ s.now

    instant :
        (v : Verification)
        → first_where (unused_now token s.now) s.tables.verifications ≡ some v
        → s.now ≤ clock
        → is_after clock (expires_at v) ≡ false
        → IsInstant
    instant v found order kept =
        let holds = first_where-holds (unused_now token s.now) s.tables.verifications v found in
        elim (Option-cases (expires_at v)) [
          | inl null ↦ absurd (ground (arith, null))
          | inr (expiry, known) ↦ record {
            verification = v;
            found = found;
            expiry = ground (arith, holds, known);
            clocks = ground (arith, holds, known);
          }
        ]

    confirmed-IsInstant :
        (r : Result VerificationRow × Session A)
        → s.now ≤ clock
        → Holds
            (λ row t.
              Same s t
              × (found_verification (first_where (unused_now token s.now) s.tables.verifications)
                  ≡ some row))
            (Missing
              (λ t. found_verification (first_where (unused_now token s.now) t.verifications))
              s)
            r
        → ((confirmed parse clock later token r).1.tables ≡ s.tables) ⊎ IsInstant
    confirmed-IsInstant (err e, t) order (failed h) = inl h.0.tables
    confirmed-IsInstant (ok row, t) order (done h) =
        elim (Bool-cases (is_after clock row.expires_at)) [
          | inl late ↦ inl (rw late h.0.tables)
          | inr kept ↦
              let (found, expiry) = row_found _ row h.1 in
              inr (instant row.verification found order (rw (← expiry) kept))
        ]

    -- With a clock of the program that is not behind the database's, the confirmation of a reset
    -- changes the tables only at the very instant at which the verification expires: before it the
    -- query does not find it, and after it the handler refuses it.
    pub handle_password_reset_confirm-IsInstant :
        s.now ≤ clock
        → ((handle_password_reset_confirm parse clock later token s).1.tables ≡ s.tables)
          ⊎ IsInstant
    unfolding handle_password_reset_confirm get_unused_verification_by_token
    handle_password_reset_confirm-IsInstant order = elim (Bool-cases (token is "")) [
      | inl empty ↦ rw (empty, handle_password_reset_confirm) (inl refl)
      | inr given ↦
          rw (given, handle_password_reset_confirm)
            (confirmed-IsInstant (get_unused_verification_by_token token s) order (
              one_now-Holds
                (λ now t. found_verification (first_where (unused_now token now) t.verifications))
                s))
    ]
