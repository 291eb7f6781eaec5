-- ===== src/Kyc/Texts.antt =====
-- services/kyc/service.go: the statuses and risk profiles as texts, and back.
use mogtrade_engine.Base.{◌≡◌, refl, ◌↔◌, String, arith, string_eq}
use mogtrade_engine.Database.People.{
  KycStatus, kyc_pending, kyc_verifying, kyc_verified, kyc_rejected, kyc_expired, KycRiskProfile,
  risk_low, risk_medium, risk_high, kyc_status_text, kyc_risk_text,
}
use mogtrade_engine.Database.Session.{ok}
use mogtrade_engine.Kyc.Service.{to_db_status, to_db_risk_profile}

status_read : (status : KycStatus) → to_db_status (kyc_status_text status) ≡ ok status
unfolding to_db_status
status_read kyc_pending = refl
status_read kyc_verifying = refl
status_read kyc_verified = refl
status_read kyc_rejected = refl
status_read kyc_expired = refl

risk_read : (risk : KycRiskProfile) → to_db_risk_profile (kyc_risk_text risk) ≡ ok risk
unfolding to_db_risk_profile
risk_read risk_low = refl
risk_read risk_medium = refl
risk_read risk_high = refl

status_written :
    (text : String) (status : KycStatus)
    → to_db_status text ≡ ok status
    → kyc_status_text status ≡ text
unfolding to_db_status
status_written text status h = ground (
  arith,
  string_eq.beq_iff text "pending",
  string_eq.beq_iff text "verifying",
  string_eq.beq_iff text "verified",
  string_eq.beq_iff text "rejected",
  string_eq.beq_iff text "expired",
)

risk_written :
    (text : String) (risk : KycRiskProfile)
    → to_db_risk_profile text ≡ ok risk
    → kyc_risk_text risk ≡ text
unfolding to_db_risk_profile
risk_written text risk h = ground (
  arith,
  string_eq.beq_iff text "low",
  string_eq.beq_iff text "medium",
  string_eq.beq_iff text "high",
)

-- The status that a text stands for is the one that is written as that text, and the other way
-- round, so that a text of no status is refused; so it is with the risk profiles.
pub to_db_status_iff :
    ((text : String) (status : KycStatus)
      → (to_db_status text ≡ ok status) ↔ (kyc_status_text status ≡ text))
    × ((text : String) (risk : KycRiskProfile)
        → (to_db_risk_profile text ≡ ok risk) ↔ (kyc_risk_text risk ≡ text))
to_db_status_iff = (
  λ text status. (status_written text status, λ e. rw (← e) (status_read status)),
  λ text risk. (risk_written text risk, λ e. rw (← e) (risk_read risk)),
)
