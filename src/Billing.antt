-- ===== src/Billing.antt =====
-- services/billing: wallets, their transactions and the ledger.
pub mod Status
pub mod Service
pub mod Balances
pub mod Recording
pub mod Changing
pub mod Opening
pub mod Tests
pub mod Keeping
