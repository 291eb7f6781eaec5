-- ===== src/Orders.antt =====
-- services/orders: the life of an order in the database, its executions, and the risk checks.
pub mod Status
pub mod Service
pub mod Transitions
pub mod Placing
pub mod Filling
pub mod Executing
pub mod Risk
pub mod Insertion
pub mod Recording
pub mod Tests
