-- ===== src/Kyc/Effects.antt =====
-- services/kyc/service.go: what each operation that the program calls does to the tables. SetStatus
-- is not called by the program, and is left out here.
use mogtrade_engine.Base.{
  ⊤, ℕ, ◌≡◌, ◌∙◌, refl, ap, inl, inr, Bool-cases, Option, none, some, String, [], ◌∷◌, ◌++◌, ◌||◌,
  string_eq, ◌is◌,
}
use mogtrade_engine.Database.People.{KycRiskProfile}
use mogtrade_engine.Database.Rows.{Tables}
use mogtrade_engine.Database.Session.{Session, Result, ok, err, is_no_rows}
use mogtrade_engine.Database.Session.Rules.{
  Holds, done, failed, Same, Holds-after, Holds-mono, Broken, Missing, one_now-Holds, write-Holds,
  write_unique-Holds, or_fail-Holds,
}
use mogtrade_engine.Database.Kyc.{
  active_of, reviewable_of, KycRow, CreateKycRecordParams, UpdateKycProfileParams, of_user,
  new_record, verifying_record, rejected_record, verified_record, documented_record,
  profiled_record, kyc_violates, kycs_changed, active_row, create_kyc_record,
  lookup_active_kyc_for_user, mark_kyc_verifying, reject_kyc, update_kyc_documents,
  update_kyc_profile, verify_kyc,
}
use mogtrade_engine.Kyc.Service.{
  CreateParams, UpdateProfileParams, UpdateDocumentsParams, VerifyParams, RejectParams,
  IdentityDocument, ProofOfAddressDocument, params_of, lift, to_db_risk_profile, to_db_gender,
  profile_of, create_and_find, create_where_missing, create_record, marshalled, update_profile,
  update_documents, mark_verifying, verify, reject,
}

module _ {A : Type 0} where
  -- What one call may have done.
  pub data Effect (s : Tables A) : Tables A → Type 0 where
    same : {t : Tables A} → t ≡ s → Effect s t
    applied :
        {t : Tables A} (p : CreateKycRecordParams) (now : ℕ)
        → kyc_violates p s ≡ none
        → t ≡ record s { kycs = s.kycs ++ new_record now p ∷ [] }
        → Effect s t
    reviewed :
        {t : Tables A} (user : Option String) (now : ℕ)
        → t ≡ kycs_changed (reviewable_of user) verifying_record now s
        → Effect s t
    refused :
        {t : Tables A} (user : Option String) (by reason : String) (now : ℕ)
        → t ≡ kycs_changed (active_of user) (rejected_record (some by) (some reason)) now s
        → Effect s t
    approved :
        {t : Tables A} (user : Option String) (by : String) (risk : KycRiskProfile) (now : ℕ)
        → t ≡ kycs_changed (active_of user) (verified_record (some by) risk) now s
        → Effect s t
    documented :
        {t : Tables A} (user : Option String) (identity address : String) (now : ℕ)
        → t ≡ kycs_changed (of_user user) (documented_record identity address) now s
        → Effect s t
    profiled :
        {t : Tables A} (p : UpdateKycProfileParams) (now : ℕ)
        → t ≡ kycs_changed (of_user p.user_id) (profiled_record p) now s
        → Effect s t

  -- An operation has an effect, whether it is done or fails.
  abbrev pub Affects : {X : Type 0} → Session A → Result X × Session A → Type 0
  Affects s r = Holds (λ x t. Effect s.tables t.tables) (λ e t. Effect s.tables t.tables) r

  pub Affects-Effect :
      {X : Type 0} (s : Session A) (r : Result X × Session A)
      → Affects s r
      → Effect s.tables r.1.tables
  Affects-Effect s (ok x, t) (done h) = h
  Affects-Effect s (err e, t) (failed h) = h

  written :
      (f : ℕ → Tables A → Tables A) (s : Session A) (r : Result ⊤ × Session A)
      → ((t : Tables A) → t ≡ f s.now s.tables → Effect s.tables t)
      → Holds (λ x t. (t.tables ≡ f s.now s.tables) × (t.now ≡ s.now)) (Broken s) r
      → Affects s r
  written f s r makes h = Holds-mono r h (λ e t k. same k.0.tables) (λ x t k. makes t.tables k.0)

  active-Holds :
      (user : Option String) (s : Session A)
      → Holds
          (λ x t. Same s t × (active_row user s.now s.tables ≡ some x))
          (Missing (active_row user s.now) s)
          (lookup_active_kyc_for_user user s)
  unfolding lookup_active_kyc_for_user
  active-Holds user s = one_now-Holds (active_row user) s

  create_and_find-Affects : (p : CreateParams) (s : Session A) → Affects s (create_and_find p s)
  unfolding create_and_find create_kyc_record
  create_and_find-Affects p s =
      Holds-after _ _ (write_unique-Holds (kyc_violates (params_of p)) _ s)
        (λ e t k. same k.0.tables)
        (λ x t made.
          Holds-after _ _ (active-Holds (some p.user_id) t)
            (λ e u k. applied (params_of p) s.now made.0 (k.0.tables ∙ made.1.0))
            (λ row u k. done (applied (params_of p) s.now made.0 (k.0.tables ∙ made.1.0))))

  created-Affects :
      (p : CreateParams) (s : Session A) (r : Result KycRow × Session A)
      → Holds
          (λ x t. Same s t × (active_row (some p.user_id) s.now s.tables ≡ some x))
          (Missing (active_row (some p.user_id) s.now) s)
          r
      → Affects s (create_where_missing p r)
  created-Affects p s (ok row, t) (done h) = done (same h.0.tables)
  created-Affects p s (err e, t) (failed h) = elim (Bool-cases (is_no_rows e)) [
    | inl missing ↦ rw missing (rw (← h.0.tables) (create_and_find-Affects p t))
    | inr other ↦ rw other (done (same h.0.tables))
  ]

  pub create_record-Affects : (p : CreateParams) (s : Session A) → Affects s (create_record p s)
  unfolding create_record
  create_record-Affects p s = elim (Bool-cases (p.user_id is "")) [
    | inl empty ↦ rw (empty, create_record) (failed (same refl))
    | inr named ↦
        rw (named, create_record)
          (created-Affects p s (lookup_active_kyc_for_user (some p.user_id) s)
            (active-Holds (some p.user_id) s))
  ]

  pub mark_verifying-Affects : (user : String) (s : Session A) → Affects s (mark_verifying user s)
  unfolding mark_verifying mark_kyc_verifying
  mark_verifying-Affects user s = elim (Bool-cases (user is "")) [
    | inl empty ↦ rw (empty, mark_verifying) (failed (same refl))
    | inr named ↦
        rw (named, mark_verifying)
          (written (kycs_changed (reviewable_of (some user)) verifying_record) s _
            (λ t e. reviewed (some user) s.now e) (write-Holds _ s))
  ]

  lift-Holds :
      {X : Type 0} (r : Result X) (s : Session A)
      → Holds (λ x t. (r ≡ ok x) × (t ≡ s)) (λ e t. t ≡ s) (lift r s)
  lift-Holds (ok x) s = done (refl, refl)
  lift-Holds (err e) s = failed refl

  pub verify-Affects : (p : VerifyParams) (s : Session A) → Affects s (verify p s)
  unfolding verify verify_kyc
  verify-Affects p s = elim (Bool-cases ((p.user_id is "") || (p.verified_by is ""))) [
    | inl empty ↦ rw (empty, verify) (failed (same refl))
    | inr named ↦
        rw (named, verify)
          (Holds-after _ _ (lift-Holds (to_db_risk_profile p.risk_profile) s)
            (λ e t k. same (ap (λ u. u.tables) k))
            (λ risk t k. rw k.1 (
              written
                (kycs_changed (active_of (some p.user_id))
                  (verified_record (some p.verified_by) risk))
                s _ (λ u e. approved (some p.user_id) p.verified_by risk s.now e)
                (write-Holds _ s))))
  ]

  pub reject-Affects : (p : RejectParams) (s : Session A) → Affects s (reject p s)
  unfolding reject reject_kyc
  reject-Affects p s = elim (Bool-cases ((p.user_id is "") || (p.verified_by is ""))) [
    | inl empty ↦ rw (empty, reject) (failed (same refl))
    | inr named ↦ elim (Bool-cases (p.rejection_reason is "")) [
      | inl mute ↦ rw (named, mute, reject) (failed (same refl))
      | inr reason ↦
          rw (named, reason, reject)
            (written
              (kycs_changed (active_of (some p.user_id))
                (rejected_record (some p.verified_by) (some p.rejection_reason)))
              s _ (λ u e. refused (some p.user_id) p.verified_by p.rejection_reason s.now e)
              (write-Holds _ s))
    ]
  ]

  pub update_documents-Affects :
      (marshal_identity : IdentityDocument → Option String)
      (marshal_address : ProofOfAddressDocument → Option String) (p : UpdateDocumentsParams)
      (s : Session A)
      → Affects s (update_documents marshal_identity marshal_address p s)
  unfolding update_documents update_kyc_documents
  update_documents-Affects marshal_identity marshal_address p s =
      elim (Bool-cases (p.user_id is "")) [
        | inl empty ↦ rw (empty, update_documents) (failed (same refl))
        | inr named ↦
            rw (named, update_documents)
              (Holds-after _ _ (or_fail-Holds (marshal_identity p.identity_doc) _ s)
                (λ e t k. same (ap (λ u. u.tables) k.0))
                (λ identity t k. rw k.1 (
                  Holds-after _ _ (or_fail-Holds (marshal_address p.proof_of_address) _ s)
                    (λ e u l. same (ap (λ v. v.tables) l.0))
                    (λ address u l. rw l.1 (
                      written
                        (kycs_changed (of_user (some p.user_id))
                          (documented_record identity address))
                        s _ (λ v e. documented (some p.user_id) identity address s.now e)
                        (write-Holds _ s))))))
      ]

  marshalled-Holds :
      {Address : Type 0} (marshal : Address → Option String) (address : Option Address)
      (s : Session A)
      → Holds (λ x t. t ≡ s) (λ e t. t ≡ s) (marshalled marshal address s)
  marshalled-Holds marshal none s = done refl
  marshalled-Holds marshal (some x) s =
      Holds-after _ _ (or_fail-Holds (marshal x) _ s) (λ e t k. k.0) (λ text t k. done k.1)

  pub update_profile-Affects :
      {Address : Type 0} (marshal : Address → Option String) (p : UpdateProfileParams Address)
      (s : Session A)
      → Affects s (update_profile marshal p s)
  unfolding update_profile update_kyc_profile
  update_profile-Affects marshal p s = elim (Bool-cases (p.user_id is "")) [
    | inl empty ↦ rw (empty, update_profile) (failed (same refl))
    | inr named ↦ elim (Bool-cases (p.legal_names is "")) [
      | inl mute ↦ rw (named, mute, update_profile) (failed (same refl))
      | inr names ↦
          rw (named, names, update_profile)
            (Holds-after _ _ (marshalled-Holds marshal p.address s)
              (λ e t k. same (ap (λ u. u.tables) k))
              (λ address t k. rw k (
                Holds-after _ _ (lift-Holds (to_db_gender p.gender) s)
                  (λ e u l. same (ap (λ v. v.tables) l))
                  (λ gender u l. rw l.1 (
                    written
                      (kycs_changed (of_user (some p.user_id))
                        (profiled_record (profile_of p gender address)))
                      s _ (λ v e. profiled (profile_of p gender address) s.now e)
                      (write-Holds _ s))))))
    ]
  ]
