-- ===== src/Auth/Issuing.antt =====
-- services/auth/auth.go: the making of a pair of tokens, and what it does to the refresh tokens.
use mogtrade_engine.Base.{
  ⊤, ℕ, ◌≡◌, ◌∙◌, refl, inl, inr, Bool-cases, Bool, true, some, String, List, [], ◌∷◌, ◌++◌,
  string_eq, ◌is◌, is_refl, arith,
}
use mogtrade_engine.Database.People.{User, RefreshToken}
use mogtrade_engine.Database.Rows.{Tables}
use mogtrade_engine.Database.Table.{first_where, update_where, where_holds}
use mogtrade_engine.Database.Session.{Error, Session, Result, ok, err}
use mogtrade_engine.Database.Session.Rules.{
  Holds, done, failed, Same, Holds-after, Holds-mono, Holds-handled, dropped-write-Holds,
  aborted_write_unique-Holds, write_unique-Holds, one_now-Holds, or_fail-Holds,
}
use mogtrade_engine.Database.Kyc.{of_user, found_row, lookup_kyc_record_by_user}
use mogtrade_engine.Database.Auth.{
  CreateRefreshTokenParams, new_token, live_on, token_violates, token_added, tokens_revoked,
  create_refresh_token, invalidate_refresh_tokens_for_device,
}
use mogtrade_engine.Kyc.Service.{LookupKycRecord, or_kyc_not_found, map_record, lift, get_by_user}
use mogtrade_engine.Kyc.Handlers.{is_kyc_not_found}
use mogtrade_engine.Auth.Service.{
  Tokens, SignInResult, get_user_claims, token_params, kyc_claim, status_of,
  generate_auth_token_pairs, issue,
}

revoked_all :
    (device : String) (now : ℕ) (xs : List RefreshToken)
    → where_holds
        (live_on device)
        (update_where (live_on device) (λ r. record r { revoked_at = some now }) xs)
      ≡ []
unfolding where_holds update_where
revoked_all device now [] = refl
revoked_all device now (x ∷ xs) = ground (arith, revoked_all device now xs)

where_holds-last :
    (p : RefreshToken → Bool) (xs : List RefreshToken) (x : RefreshToken)
    → where_holds p xs ≡ []
    → p x ≡ true
    → where_holds p (xs ++ x ∷ []) ≡ x ∷ []
unfolding where_holds
where_holds-last p [] x none_before holds = ground arith
where_holds-last p (y ∷ ys) x none_before holds = ground (arith, where_holds-last p ys x)

module _ {A : Type 0} where
  abbrev pub NothingSaid : Error → Session A → Type 0
  NothingSaid e t = ⊤

  -- The tokens of the device are revoked, and the new one is the only one of it that is not.
  pub record IsIssued (p : CreateRefreshTokenParams) (now : ℕ) (s t : Tables A) : Type 0 where
    pub tables : t ≡ token_added p now (tokens_revoked p.device_id now s)
    pub live : where_holds (live_on p.device_id) t.refresh_tokens ≡ new_token now p ∷ []

  issued :
      (p : CreateRefreshTokenParams) (now : ℕ) (s t : Tables A)
      → t ≡ token_added p now (tokens_revoked p.device_id now s)
      → IsIssued p now s t
  issued p now s t tables = record {
    tables = tables;
    live = rw tables (
        where_holds-last (live_on p.device_id) _ (new_token now p)
          (revoked_all p.device_id now s.refresh_tokens) (ground (arith, is_refl p.device_id)));
  }

  pub issue-IsIssued :
      (tokens : Tokens) (id user device : String) (lifetime : ℕ) (pair : SignInResult)
      (s : Session A)
      → s.in_transaction ≡ true
      → Holds
          (λ x t.
            (x ≡ pair)
            × IsIssued
                (token_params id user device pair.refresh_token lifetime)
                s.now
                s.tables
                t.tables)
          NothingSaid
          (issue tokens id user device lifetime pair s)
  unfolding issue invalidate_refresh_tokens_for_device create_refresh_token
  issue-IsIssued tokens id user device lifetime pair s inside =
      let p = token_params id user device pair.refresh_token lifetime in
      Holds-after _ _ (dropped-write-Holds {F = NothingSaid} (tokens_revoked device) s inside)
        (λ e t k. tt)
        (λ x t revoked. elim revoked [
          | inr aborted ↦
              Holds-after _ _
                (aborted_write_unique-Holds {F = NothingSaid} (token_violates p) (token_added p) t
                  aborted (λ e u. tt))
                (λ e u k. tt) (λ y u k. absurd k)
          | inl writes ↦
              Holds-after _ _ (write_unique-Holds (token_violates p) (token_added p) t)
                (λ e u k. tt)
                (λ y u k.
                  done
                    (refl, issued p s.now s.tables u.tables (k.1.0 ∙ rw (writes.0, writes.1) refl)))
        ])

  lift-Reads :
      {X : Type 0} (r : Result X) (s t : Session A)
      → Same s t
      → Holds (λ x u. Same s u) (λ e u. Same s u) (lift r t)
  lift-Reads (ok x) s t same = done same
  lift-Reads (err e) s t same = failed same

  abbrev pub Reads : {X : Type 0} → Session A → Result X × Session A → Type 0
  Reads s r = Holds (λ x t. Same s t) (λ e t. Same s t) r

  Same-refl : (s : Session A) → Same s s
  Same-refl s = record { tables = refl; now = refl; mode = refl; faulty = λ h. h }

  status_of-Reads :
      (s : Session A) (r : Result LookupKycRecord × Session A) → Reads s r → Reads s (status_of r)
  status_of-Reads s (ok x, t) (done h) = done h
  status_of-Reads s (err e, t) (failed h) = elim (Bool-cases (is_kyc_not_found e)) [
    | inl missing ↦ rw missing (done h)
    | inr other ↦ rw other (failed h)
  ]

  get_by_user-Reads : (user : String) (s : Session A) → Reads s (get_by_user user s)
  unfolding get_by_user lookup_kyc_record_by_user
  get_by_user-Reads user s = elim (Bool-cases (user is "")) [
    | inl empty ↦ rw (empty, get_by_user) (failed (Same-refl s))
    | inr named ↦
        rw (named, get_by_user)
          (Holds-after _ _
            (Holds-handled {F = λ e t. Same s t} or_kyc_not_found _
              (one_now-Holds (λ now t. found_row now (first_where (of_user (some user)) t.kycs)) s)
              (λ e t k. k.0))
            (λ e t k. k) (λ row t k. lift-Reads (map_record row) s t k.0))
  ]

  pub kyc_claim-Reads : (user : String) (s : Session A) → Reads s (kyc_claim user s)
  kyc_claim-Reads user s = status_of-Reads s (get_by_user user s) (get_by_user-Reads user s)

  pub pairs-Holds :
      (tokens : Tokens) (u : User) (status : String) (s : Session A)
      → Holds (λ x t. t ≡ s) NothingSaid (generate_auth_token_pairs tokens u status s)
  unfolding generate_auth_token_pairs
  pairs-Holds tokens u status s =
      Holds-after _ _
        (or_fail-Holds (tokens.encode_with_claims (get_user_claims u status) u.id) _ s)
        (λ e t k. tt) (λ access t k. done k.1)

  -- The tokens end as `IsIssued` says, seen from a session that is the same.
  pub issue_later :
      (tokens : Tokens) (id user device : String) (lifetime : ℕ) (pair : SignInResult)
      (s t : Session A)
      → s.in_transaction ≡ true
      → Same s t
      → Holds
          (λ x u.
            IsIssued (token_params id user device x.refresh_token lifetime) s.now s.tables u.tables)
          NothingSaid
          (issue tokens id user device lifetime pair t)
  issue_later tokens id user device lifetime pair s t inside same =
      Holds-mono _ (issue-IsIssued tokens id user device lifetime pair t (same.mode ∙ inside))
        (λ e u k. tt) (λ x u k. rw (k.0, ← same.tables, ← same.now) k.1)
