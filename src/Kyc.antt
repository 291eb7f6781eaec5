-- ===== src/Kyc.antt =====
-- services/kyc and app/controller/kyc.go: the KYC record of a user, from its application to its
-- verification.
pub mod Service
pub mod Effects
pub mod Life
pub mod Orderly
pub mod System
pub mod Beginning
pub mod Forms
pub mod Handlers
pub mod Texts
pub mod Answers
pub mod Tests
