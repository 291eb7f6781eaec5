-- ===== src/Database/Kyc.antt =====
-- infra/db/kyc.sql.go: the queries on the table of KYC records. Its one unique index besides the
-- key is that of user_id (migration 000041). Every record with all its columns stands for a row
-- of the two lists, and `KycRow` for the columns that the lookups share.
use mogtrade_engine.Base.{
  ⊤, ℕ, ◌+◌, leb, ltb, ◌&&◌, Bool, true, false, Option, none, some, String, List, [], ◌∷◌, ◌++◌,
  if◌then◌else◌, string_eq, ◌is◌, map,
}
use mogtrade_engine.Database.People.{
  KycStatus, kyc_pending, kyc_verifying, kyc_verified, kyc_rejected, KycRiskProfile, risk_low,
  Gender, KycRecord, is_ready, is_verified, is_active, can_begin_verifying, same_risk,
}
use mogtrade_engine.Database.Rows.{Tables}
use mogtrade_engine.Database.Table.{
  both, first_where, any_where, update_where, where_holds, sorted_by,
}
use mogtrade_engine.Database.Session.{Query, read_now, write, write_unique, one}

-- LookupActiveKycForUserRow and the two rows like it.
pub record KycRow : Type 0 where
  pub id : String
  pub user_id : Option String
  pub status : KycStatus
  pub ready : Option Bool
  pub expires_at : ℕ
  pub usable : Bool
  pub verify_before : ℕ

pub record CreateKycRecordParams : Type 0 where
  pub id : String
  pub valid_window : ℕ
  pub user_id : Option String
  pub verification_window : ℕ

pub record UpdateKycProfileParams : Type 0 where
  pub user_id : Option String
  pub legal_names : Option String
  pub gender : Option Gender
  pub dob : Option ℕ
  pub address : Option String

-- The record is verified and its window has not passed.
abbrev pub is_usable : ℕ → KycRecord → Bool
is_usable now k = is_verified k.status && leb now (k.created_at + k.valid_window)

abbrev pub row_of : ℕ → KycRecord → KycRow
row_of now k = record {
  id = k.id;
  user_id = k.user_id;
  status = k.status;
  ready = some (is_ready k);
  expires_at = k.created_at + k.valid_window;
  usable = is_usable now k;
  verify_before = k.created_at + k.verification_window;
}

abbrev pub of_user : Option String → KycRecord → Bool
of_user user k = both k.user_id user

abbrev pub active_of : Option String → KycRecord → Bool
active_of user k = of_user user k && is_active k.status

abbrev pub reviewable_of : Option String → KycRecord → Bool
reviewable_of user k = of_user user k && can_begin_verifying k.status

abbrev pub new_record : ℕ → CreateKycRecordParams → KycRecord
new_record now p = record {
  id = p.id;
  user_id = p.user_id;
  status = kyc_pending;
  risk_profile = risk_low;
  verified_at = none;
  valid_window = p.valid_window;
  identity_doc =
      "{\"front_hash\": \"\", \"back_hash\": \"\", \"selfie_hash\": \"\", \"uri\": \"\"}";
  proof_of_address = "{\"doc_hash\": \"\", \"uri\": \"\"}";
  created_at = now;
  updated_at = now;
  verified_by = none;
  rejection_reason = none;
  legal_names = none;
  gender = none;
  dob = none;
  address = none;
  verification_window = p.verification_window;
}

abbrev pub verifying_record : ℕ → KycRecord → KycRecord
verifying_record now k = record k { updated_at = now; status = kyc_verifying }

abbrev pub rejected_record : Option String → Option String → ℕ → KycRecord → KycRecord
rejected_record verified_by reason now k = record k {
  updated_at = now;
  status = kyc_rejected;
  verified_by = verified_by;
  rejection_reason = reason;
  verified_at = none;
}

abbrev pub verified_record : Option String → KycRiskProfile → ℕ → KycRecord → KycRecord
verified_record verified_by risk now k = record k {
  updated_at = now;
  status = kyc_verified;
  verified_at = some now;
  verified_by = verified_by;
  rejection_reason = none;
  risk_profile = risk;
}

abbrev pub documented_record : String → String → ℕ → KycRecord → KycRecord
documented_record identity address now k = record k {
  updated_at = now;
  identity_doc = identity;
  proof_of_address = address;
  status = kyc_pending;
  rejection_reason = none;
  verified_at = none;
  verified_by = none;
}

abbrev pub profiled_record : UpdateKycProfileParams → ℕ → KycRecord → KycRecord
profiled_record p now k = record k {
  updated_at = now;
  legal_names = p.legal_names;
  gender = p.gender;
  dob = p.dob;
  address = p.address;
}

abbrev pub found_row : ℕ → Option KycRecord → Option KycRow
found_row now none = none
found_row now (some k) = some (row_of now k)

-- verified_at desc nulls last
abbrev pub verified_before : Option ℕ → Option ℕ → Bool
verified_before a none = true
verified_before none (some b) = false
verified_before (some a) (some b) = leb b a

module _ {A : Type 0} where
  unfoldable pub kyc_violates : CreateKycRecordParams → Tables A → Option String
  kyc_violates p t =
      if any_where (λ k. k.id is p.id) t.kycs
      then some "kyc_records_pkey"
      else if any_where (of_user p.user_id) t.kycs
      then some "kyc_records_user_id_uidx"
      else none

  -- The tables with the records of a user changed where a test picks them.
  abbrev pub kycs_changed :
      (KycRecord → Bool) → (ℕ → KycRecord → KycRecord) → ℕ → Tables A → Tables A
  kycs_changed picks change now t = record t { kycs = update_where picks (change now) t.kycs }

  unfoldable pub create_kyc_record : CreateKycRecordParams → Query A ⊤
  create_kyc_record p =
      write_unique (kyc_violates p) (λ now t. record t { kycs = t.kycs ++ new_record now p ∷ [] })

  unfoldable pub list_kycs : Query A (List (KycRecord × KycRow))
  list_kycs = read_now (λ now t.
      map (λ k. (k, row_of now k)) (sorted_by (λ a b. leb b.created_at a.created_at) t.kycs))

  unfoldable pub list_kycs_by_risk_profile : KycRiskProfile → Query A (List (KycRecord × KycRow))
  list_kycs_by_risk_profile risk = read_now (λ now t.
      map (λ k. (k, row_of now k))
        (sorted_by (λ a b. verified_before a.verified_at b.verified_at)
          (where_holds (λ k. same_risk k.risk_profile risk) t.kycs)))

  abbrev pub active_row : Option String → ℕ → Tables A → Option KycRow
  active_row user now t = found_row now (first_where (active_of user) t.kycs)

  unfoldable pub lookup_active_kyc_for_user : Option String → Query A KycRow
  lookup_active_kyc_for_user user s = one (read_now (active_row user) s)

  unfoldable pub lookup_kyc_record_by_id : String → Query A KycRow
  lookup_kyc_record_by_id id s =
      one (read_now (λ now t. found_row now (first_where (λ k. k.id is id) t.kycs)) s)

  unfoldable pub lookup_kyc_record_by_user : Option String → Query A KycRow
  lookup_kyc_record_by_user user s =
      one (read_now (λ now t. found_row now (first_where (of_user user) t.kycs)) s)

  unfoldable pub mark_kyc_verifying : Option String → Query A ⊤
  mark_kyc_verifying user = write (kycs_changed (reviewable_of user) verifying_record)

  unfoldable pub reject_kyc : Option String → Option String → Option String → Query A ⊤
  reject_kyc user verified_by reason =
      write (kycs_changed (active_of user) (rejected_record verified_by reason))

  unfoldable pub set_kyc_status : Option String → KycStatus → Query A ⊤
  set_kyc_status user status =
      write (kycs_changed (of_user user) (λ now k. record k { updated_at = now; status = status }))

  unfoldable pub update_kyc_documents : Option String → String → String → Query A ⊤
  update_kyc_documents user identity address =
      write (kycs_changed (of_user user) (documented_record identity address))

  unfoldable pub update_kyc_profile : UpdateKycProfileParams → Query A ⊤
  update_kyc_profile p = write (kycs_changed (of_user p.user_id) (profiled_record p))

  -- Not called by the program.
  unfoldable pub user_has_active_kyc_profile : Option String → Query A Bool
  user_has_active_kyc_profile user = read_now (λ now t.
      any_where
        (λ k.
          of_user user k && (is_active k.status && ltb now (k.created_at + k.verification_window)))
        t.kycs)

  unfoldable pub verify_kyc : Option String → Option String → KycRiskProfile → Query A ⊤
  verify_kyc user verified_by risk =
      write (kycs_changed (active_of user) (verified_record verified_by risk))
