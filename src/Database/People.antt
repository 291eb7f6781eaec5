-- ===== src/Database/People.antt =====
-- infra/db/models.go and the migrations: the rows of the users, their accounts, refresh tokens,
-- verifications and KYC records. A window of time is a number of seconds, an instant too.
use mogtrade_engine.Base.{ℕ, Bool, true, false, ◌&&◌, Option, none, some, String}

pub data KycStatus : Type 0 where
  kyc_pending kyc_verifying kyc_verified kyc_rejected kyc_expired : KycStatus

pub data KycRiskProfile : Type 0 where
  risk_low risk_medium risk_high : KycRiskProfile

pub data Gender : Type 0 where
  gender_male gender_female gender_undefined : Gender

pub data AccountProvider : Type 0 where
  provider_credential provider_google_oauth : AccountProvider

pub data VerificationStatus : Type 0 where
  verification_primed verification_pending : VerificationStatus

pub data VerificationType : Type 0 where
  email_reset email_verify phone_verify : VerificationType

-- A row of kyc_records. The documents and the address are JSON texts.
pub record KycRecord : Type 0 where
  pub id : String
  pub user_id : Option String
  pub status : KycStatus
  pub risk_profile : KycRiskProfile
  pub verified_at : Option ℕ
  pub valid_window : ℕ
  pub identity_doc : String
  pub proof_of_address : String
  pub created_at : ℕ
  pub updated_at : ℕ
  pub verified_by : Option String
  pub rejection_reason : Option String
  pub legal_names : Option String
  pub gender : Option Gender
  pub dob : Option ℕ
  pub address : Option String
  pub verification_window : ℕ

pub record User : Type 0 where
  pub id : String
  pub name : String
  pub email : String
  pub email_verified : Bool
  pub image : Option String
  pub created_at : ℕ
  pub updated_at : ℕ
  pub prefs : Option String

-- A row of account, without the columns that belong to other providers.
pub record Account : Type 0 where
  pub id : String
  pub account_id : String
  pub provider : AccountProvider
  pub user_id : String
  pub password : Option String
  pub created_at : ℕ
  pub updated_at : ℕ

pub record RefreshToken : Type 0 where
  pub id : String
  pub user_id : String
  pub token_hash : String
  pub valid_window : ℕ
  pub created_at : ℕ
  pub revoked_at : Option ℕ
  pub device_id : String

-- A row of verifications. Its columns created_at and used may be null.
pub record Verification : Type 0 where
  pub id : String
  pub user_id : String
  pub token : String
  pub valid_window : ℕ
  pub purpose : VerificationType
  pub ip : String
  pub callback_url : Option String
  pub status : VerificationStatus
  pub created_at : Option ℕ
  pub used_at : Option ℕ
  pub used : Option Bool

abbrev pub is_some : {A : Type 0} → Option A → Bool
is_some none = false
is_some (some x) = true

-- The generated column: the profile has names, a gender and a day of birth.
abbrev pub is_ready : KycRecord → Bool
is_ready k = is_some k.legal_names && (is_some k.gender && is_some k.dob)

-- status = 'verified'
abbrev pub is_verified : KycStatus → Bool
is_verified kyc_verified = true
is_verified status = false

-- status not in ('expired', 'rejected')
abbrev pub is_active : KycStatus → Bool
is_active kyc_expired = false
is_active kyc_rejected = false
is_active status = true

-- status in ('pending', 'rejected', 'expired')
abbrev pub can_begin_verifying : KycStatus → Bool
can_begin_verifying kyc_pending = true
can_begin_verifying kyc_rejected = true
can_begin_verifying kyc_expired = true
can_begin_verifying status = false

abbrev pub same_risk : KycRiskProfile → KycRiskProfile → Bool
same_risk risk_low risk_low = true
same_risk risk_low b = false
same_risk risk_medium risk_medium = true
same_risk risk_medium b = false
same_risk risk_high risk_high = true
same_risk risk_high b = false

-- string(row.Status)
abbrev pub kyc_status_text : KycStatus → String
kyc_status_text kyc_pending = "pending"
kyc_status_text kyc_verifying = "verifying"
kyc_status_text kyc_verified = "verified"
kyc_status_text kyc_rejected = "rejected"
kyc_status_text kyc_expired = "expired"

abbrev pub kyc_risk_text : KycRiskProfile → String
kyc_risk_text risk_low = "low"
kyc_risk_text risk_medium = "medium"
kyc_risk_text risk_high = "high"

abbrev pub is_credential : AccountProvider → Bool
is_credential provider_credential = true
is_credential provider_google_oauth = false

abbrev pub is_primed : VerificationStatus → Bool
is_primed verification_primed = true
is_primed verification_pending = false
