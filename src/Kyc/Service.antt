-- ===== src/Kyc/Service.antt =====
-- services/kyc/service.go: the operations on KYC records. json.Marshal is a parameter, one for
-- each of the values that it is given. A context is left out. No caller passes a negative window.
mod Values
use mogtrade_engine.Base.{⊤, Option, none, some, String, List, if◌then◌else◌, string_eq, ◌is◌, ◌||◌}
use mogtrade_engine.Database.People.{kyc_status_text}
use mogtrade_engine.Database.Session.{
  empty_rejection_reason, empty_user_id, not_json, other_error, is_no_rows, Session, Query, Result,
  ok, err, pure, fail, or_fail, on_error, ◌>>=◌, ◌>>◌,
}
use mogtrade_engine.Database.Kyc.{
  KycRow, create_kyc_record, list_kycs, list_kycs_by_risk_profile, lookup_active_kyc_for_user,
  lookup_kyc_record_by_id, lookup_kyc_record_by_user, mark_kyc_verifying, reject_kyc,
  set_kyc_status, update_kyc_documents, update_kyc_profile, verify_kyc,
}
unfoldable pub use Values.*

module _ {A : Type 0} where
  abbrev pub lift : {X : Type 0} → Result X → Query A X
  lift r s = (r, s)

  -- The record is made where none is active. An error that is not the missing row is dropped, and
  -- the result is then the zero row, `none`.
  unfoldable pub create_and_find : CreateParams → Query A (Option KycRow)
  create_and_find p = do
    create_kyc_record (params_of p)
    row ← lookup_active_kyc_for_user (some p.user_id)
    pure (some row)

  abbrev pub create_where_missing :
      CreateParams → Result KycRow × Session A → Result (Option KycRow) × Session A
  create_where_missing p (ok row, s) = (ok (some row), s)
  create_where_missing p (err e, s) = if is_no_rows e then create_and_find p s else (ok none, s)

  unfoldable pub create_record : CreateParams → Query A (Option KycRow)
  create_record p s =
      if p.user_id is ""
      then (err empty_user_id, s)
      else create_where_missing p (lookup_active_kyc_for_user (some p.user_id) s)

  unfoldable pub get_by_user : String → Query A LookupKycRecord
  get_by_user user =
      if user is ""
      then fail empty_user_id
      else (on_error or_kyc_not_found (lookup_kyc_record_by_user (some user)) >>= λ row.
          lift (map_record row))

  unfoldable pub get_by_id : String → Query A LookupKycRecord
  get_by_id id =
      if id is ""
      then fail (other_error "kyc id is required")
      else (on_error or_kyc_not_found (lookup_kyc_record_by_id id) >>= λ row. lift (map_record row))

  -- The JSON of what may be missing.
  abbrev pub marshalled :
      {Address : Type 0} → (Address → Option String) → Option Address → Query A (Option String)
  marshalled marshal none = pure none
  marshalled marshal (some x) = or_fail (marshal x) not_json >>= λ text. pure (some text)

  unfoldable pub update_profile :
      {Address : Type 0} → (Address → Option String) → UpdateProfileParams Address → Query A ⊤
  update_profile marshal p =
      if p.user_id is ""
      then fail empty_user_id
      else if p.legal_names is ""
      then fail (other_error "legal names is required")
      else do
        address ← marshalled marshal p.address
        gender ← lift (to_db_gender p.gender)
        update_kyc_profile (profile_of p gender address)

  unfoldable pub update_documents :
      (IdentityDocument → Option String)
      → (ProofOfAddressDocument → Option String)
      → UpdateDocumentsParams
      → Query A ⊤
  update_documents marshal_identity marshal_address p =
      if p.user_id is "" then fail empty_user_id else do
        identity ← or_fail (marshal_identity p.identity_doc) not_json
        address ← or_fail (marshal_address p.proof_of_address) not_json
        update_kyc_documents (some p.user_id) identity address

  unfoldable pub mark_verifying : String → Query A ⊤
  mark_verifying user = if user is "" then fail empty_user_id else mark_kyc_verifying (some user)

  unfoldable pub verify : VerifyParams → Query A ⊤
  verify p =
      if (p.user_id is "") || (p.verified_by is "")
      then fail empty_user_id
      else (lift (to_db_risk_profile p.risk_profile) >>= λ profile.
          verify_kyc (some p.user_id) (some p.verified_by) profile)

  unfoldable pub reject : RejectParams → Query A ⊤
  reject p =
      if (p.user_id is "") || (p.verified_by is "")
      then fail empty_user_id
      else if p.rejection_reason is ""
      then fail empty_rejection_reason
      else reject_kyc (some p.user_id) (some p.verified_by) (some p.rejection_reason)

  unfoldable pub set_status : SetStatusParams → Query A ⊤
  set_status p =
      if p.user_id is ""
      then fail empty_user_id
      else (lift (to_db_status p.status) >>= λ status. set_kyc_status (some p.user_id) status)

  unfoldable pub list : Query A (List LookupKycRecord)
  list = list_kycs >>= λ rows. lift (map_rows rows)

  unfoldable pub list_by_risk_profile : String → Query A (List LookupKycRecord)
  list_by_risk_profile profile = do
    risk ← lift (to_db_risk_profile profile)
    rows ← list_kycs_by_risk_profile risk
    lift (map_rows rows)

  -- A user without a record has the claim "absent".
  abbrev claim_of : Result KycRow × Session A → Result String × Session A
  claim_of (ok row, s) = (ok (kyc_status_text row.status), s)
  claim_of (err e, s) = if is_no_rows e then (ok "absent", s) else (err e, s)

  unfoldable pub status_claim_for_user : String → Query A String
  status_claim_for_user user s =
      if user is "" then (ok "absent", s) else claim_of (lookup_kyc_record_by_user (some user) s)
