-- ===== src/Kyc/Handlers.antt =====
-- app/controller/kyc.go: the handlers, after the binding of their requests. The user of the request,
-- the new id, the parsing of a day and the object store are parameters. The handler of the documents
-- goes through a Go map, whose order decides only which of several errors is told: here it is the
-- order in which they are written. No error of the service is ErrKycAlreadyExists.
use mogtrade_engine.Base.{
  ℕ, ◌==◌, Bool, true, false, Option, none, some, String, List, [], ◌∷◌, if◌then◌else◌, string_eq,
  ◌is◌, contains,
}
use mogtrade_engine.Database.Session.{
  Error, kyc_not_found, kyc_already_exists, Session, Result, ok, err,
}
use mogtrade_engine.Database.Transaction.{with_transaction}
use mogtrade_engine.Database.Kyc.{KycRow}
use mogtrade_engine.Kyc.Service.{
  LookupKycRecord, IdentityDocument, ProofOfAddressDocument, create_record, get_by_user,
  update_profile, update_documents, mark_verifying, verify, reject, list, list_by_risk_profile,
}
use mogtrade_engine.Kyc.Forms.{
  Answer, Requirements, first_of, risk_or_low, is_true, pending_of, UpdateProfileInput,
  BatchUpdateDocsInput, identity_of, address_of, documents_of, FindObject, first_error, has_none,
  answered, processing, no_content, bad_request, server_error,
}

abbrev pub is_kyc_not_found : Error → Bool
is_kyc_not_found kyc_not_found = true
is_kyc_not_found e = false

abbrev pub is_kyc_already_exists : Error → Bool
is_kyc_already_exists kyc_already_exists = true
is_kyc_already_exists e = false

-- The instant to verify before; `none` for the zero time.
abbrev verify_before_of : Option KycRow → Option ℕ
verify_before_of none = none
verify_before_of (some row) = some row.verify_before

module _ {A : Type 0} where
  -- Any error of a call is a 500.
  abbrev pub answer_of : {X Y : Type 0} → Y → Result X × Session A → Answer Y × Session A
  answer_of y (ok x, t) = (answered y, t)
  answer_of y (err e, t) = (server_error, t)

  abbrev begin_answer : Result (Option KycRow) × Session A → Answer (Option ℕ) × Session A
  begin_answer (ok row, t) = (answered (verify_before_of row), t)
  begin_answer (err e, t) = if is_kyc_already_exists e then (processing, t) else (server_error, t)

  unfoldable pub handle_begin_kyc : String → String → Session A → Answer (Option ℕ) × Session A
  handle_begin_kyc id user s = begin_answer (
      with_transaction
        (create_record
          (record { id = id; user_id = user; valid_window = 0; verification_window = 0 }))
        s)

  abbrev requirements_answer : Result LookupKycRecord × Session A → Answer Requirements × Session A
  requirements_answer (ok r, t) = (
    answered (record {
      status = r.status;
      expires_at = r.expires_at;
      verify_before = r.verify_before;
      pending = pending_of r.status r.ready;
      ready = is_true r.ready;
    }),
    t,
  )
  requirements_answer (err e, t) = if is_kyc_not_found e then (no_content, t) else (server_error, t)

  unfoldable pub handle_get_pending_requirements :
      String → Session A → Answer Requirements × Session A
  handle_get_pending_requirements user s = requirements_answer (get_by_user user s)

  abbrev with_dob :
      {Address : Type 0}
      → (Address → Option String)
      → String
      → UpdateProfileInput Address
      → Option ℕ
      → Session A
      → Answer String × Session A
  with_dob marshal user input none s = (bad_request "invalid dob format, expected YYYY-MM-DD", s)
  with_dob marshal user input (some dob) s = answer_of "profile_updated" (
      update_profile marshal
        (record {
          user_id = user;
          legal_names = input.legal_names;
          gender = input.gender;
          dob = if dob == 0 then none else some dob;
          address = input.address;
        })
        s)

  -- The day is tried in two layouts; a day is counted from the zero time.
  unfoldable pub handle_update_profile :
      {Address : Type 0}
      → (String → Option ℕ)
      → (String → Option ℕ)
      → (Address → Option String)
      → String
      → UpdateProfileInput Address
      → Session A
      → Answer String × Session A
  handle_update_profile parse_day parse_rfc3339 marshal user input s =
      if contains ("male" ∷ "female" ∷ "undefined" ∷ []) input.gender
      then with_dob marshal user input (first_of (parse_day input.dob) (parse_rfc3339 input.dob)) s
      else (bad_request "invalid gender", s)

  abbrev with_documents :
      (IdentityDocument → Option String)
      → (ProofOfAddressDocument → Option String)
      → String
      → BatchUpdateDocsInput
      → Option String
      → Session A
      → Answer String × Session A
  with_documents marshal_identity marshal_address user input (some text) s = (bad_request text, s)
  with_documents marshal_identity marshal_address user input none s =
      answer_of "documents_updated" (
        update_documents marshal_identity marshal_address
          (record {
            user_id = user;
            identity_doc = identity_of input;
            proof_of_address = address_of input;
          })
          s)

  unfoldable pub handle_update_documents :
      FindObject
      → (IdentityDocument → Option String)
      → (ProofOfAddressDocument → Option String)
      → String
      → BatchUpdateDocsInput
      → Session A
      → Answer String × Session A
  handle_update_documents find marshal_identity marshal_address user input s =
      if has_none input
      then (bad_request "at least one document must be provided", s)
      else with_documents marshal_identity marshal_address user input
          (first_error find (documents_of input)) s

  unfoldable pub handle_begin_verifying : String → Session A → Answer String × Session A
  handle_begin_verifying user s = answer_of "verifying" (mark_verifying user s)

  -- A profile that is missing, or that cannot be bound, is "low".
  unfoldable pub handle_approve :
      String → String → Option String → Session A → Answer String × Session A
  handle_approve target verifier risk s =
      if target is ""
      then (bad_request "user id is required", s)
      else answer_of "verified" (
          verify
            (record { user_id = target; verified_by = verifier; risk_profile = risk_or_low risk })
            s)

  unfoldable pub handle_reject : String → String → String → Session A → Answer String × Session A
  handle_reject target verifier reason s =
      if target is ""
      then (bad_request "user id is required", s)
      else answer_of "rejected" (
          reject (record { user_id = target; verified_by = verifier; rejection_reason = reason }) s)

  abbrev list_answer :
      Result (List LookupKycRecord) × Session A → Answer (List LookupKycRecord) × Session A
  list_answer (ok records, t) = (answered records, t)
  list_answer (err e, t) = (server_error, t)

  unfoldable pub handle_list_applications :
      String → Session A → Answer (List LookupKycRecord) × Session A
  handle_list_applications risk s =
      list_answer (if risk is "" then list s else list_by_risk_profile risk s)
