-- ===== src/Database.antt =====
-- infra/db: the PostgreSQL tables and the queries of the program on them. The tables are those
-- that the migrations of infra/scripts/migrations leave; the queries' SQL is in infra/db/*.sql.go.
-- A numeric column keeps its value exactly: the rounding of `numeric(18, 4)` is left out, and so
-- are foreign keys, whose violation is one of the faults of a session.
pub mod Enums
pub mod People
pub mod Rows
pub mod Table
pub mod Session
pub mod Orders
pub mod Executions
pub mod Wallets
pub mod Kyc
pub mod Auth
pub mod Transaction
pub mod TextOrder
pub mod Paging
pub mod Choosing
pub mod Listing
pub mod Keys
