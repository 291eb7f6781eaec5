-- ===== src/Kyc/Service/Values.antt =====
-- services/kyc/service.go: the values that the service takes and gives, and how texts become them.
use mogtrade_engine.Base.{
  ℕ, Bool, Option, none, some, String, List, [], ◌∷◌, ◌==◌, if◌then◌else◌, string_eq, ◌is◌,
}
use mogtrade_engine.Database.People.{
  KycStatus, kyc_pending, kyc_verifying, kyc_verified, kyc_rejected, kyc_expired, KycRiskProfile,
  risk_low, risk_medium, risk_high, Gender, gender_male, gender_female, gender_undefined, KycRecord,
  kyc_status_text,
}
use mogtrade_engine.Database.Session.{
  Error, no_rows, nil_dereference, kyc_not_found, invalid_risk_profile, invalid_kyc_status,
  other_error, Result, ok, err,
}
use mogtrade_engine.Database.Kyc.{KycRow, UpdateKycProfileParams, CreateKycRecordParams}

-- 365 days and a day.
abbrev pub default_valid_window : ℕ
default_valid_window = 31536000

abbrev pub default_verification_window : ℕ
default_verification_window = 86400

pub record CreateParams : Type 0 where
  pub id : String
  pub user_id : String
  pub valid_window : ℕ
  pub verification_window : ℕ

pub record IdentityDocument : Type 0 where
  pub front_hash : String
  pub back_hash : String
  pub selfie_hash : String
  pub uri : String

pub record ProofOfAddressDocument : Type 0 where
  pub doc_hash : String
  pub uri : String

pub record UpdateDocumentsParams : Type 0 where
  pub user_id : String
  pub identity_doc : IdentityDocument
  pub proof_of_address : ProofOfAddressDocument

-- A gender is a text here, which may be any; the zero time is `none`.
pub record UpdateProfileParams (Address : Type 0) : Type 0 where
  pub user_id : String
  pub legal_names : String
  pub gender : String
  pub dob : Option ℕ
  pub address : Option Address

pub record VerifyParams : Type 0 where
  pub user_id : String
  pub verified_by : String
  pub risk_profile : String

pub record RejectParams : Type 0 where
  pub user_id : String
  pub verified_by : String
  pub rejection_reason : String

pub record SetStatusParams : Type 0 where
  pub user_id : String
  pub status : String

-- contract.LookupKycRecord
pub record LookupKycRecord : Type 0 where
  pub id : String
  pub ready : Option Bool
  pub user_id : String
  pub status : String
  pub expires_at : ℕ
  pub verify_before : ℕ
  pub usable : Bool

unfoldable pub to_db_risk_profile : String → Result KycRiskProfile
to_db_risk_profile p =
    if p is "low"
    then ok risk_low
    else if p is "medium"
    then ok risk_medium
    else if p is "high"
    then ok risk_high
    else err invalid_risk_profile

unfoldable pub to_db_status : String → Result KycStatus
to_db_status s =
    if s is "pending"
    then ok kyc_pending
    else if s is "verifying"
    then ok kyc_verifying
    else if s is "verified"
    then ok kyc_verified
    else if s is "rejected"
    then ok kyc_rejected
    else if s is "expired"
    then ok kyc_expired
    else err invalid_kyc_status

abbrev pub to_db_gender : String → Result Gender
to_db_gender g =
    if g is "male"
    then ok gender_male
    else if g is "female"
    then ok gender_female
    else if g is "undefined"
    then ok gender_undefined
    else err (other_error "invalid gender")

-- *row.UserID panics when the user was deleted.
unfoldable pub map_record : KycRow → Result LookupKycRecord
map_record row = elim row.user_id [
  | none ↦ err nil_dereference
  | some user ↦ ok (record {
    id = row.id;
    ready = row.ready;
    user_id = user;
    status = kyc_status_text row.status;
    expires_at = row.expires_at;
    verify_before = row.verify_before;
    usable = row.usable;
  })
]

-- The loop of List and ListByRiskProfile.
unfoldable pub map_rows : List (KycRecord × KycRow) → Result (List LookupKycRecord)
map_rows [] = ok []
map_rows ((k, row) ∷ rows) =
    let rest = map_rows rows in
    elim (map_record row) [
      | err e ↦ err e
      | ok x ↦ elim rest [ err e ↦ err e | ok xs ↦ ok (x ∷ xs) ]
    ]

abbrev pub or_kyc_not_found : Error → Error
or_kyc_not_found no_rows = kyc_not_found
or_kyc_not_found e = e

abbrev pub windows : ℕ → ℕ → ℕ
windows window default = if window == 0 then default else window

abbrev pub params_of : CreateParams → CreateKycRecordParams
params_of p = record {
  id = p.id;
  valid_window = windows p.valid_window default_valid_window;
  user_id = some p.user_id;
  verification_window = windows p.verification_window default_verification_window;
}

abbrev pub profile_of :
    {Address : Type 0}
    → UpdateProfileParams Address
    → Gender
    → Option String
    → UpdateKycProfileParams
profile_of p gender address = record {
  user_id = some p.user_id;
  legal_names = some p.legal_names;
  gender = some gender;
  dob = p.dob;
  address = address;
}
