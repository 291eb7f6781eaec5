-- ===== src/Controller.antt =====
-- app/controller/orders.go: the parts of the orders controller that join the services with the
-- matching engines.
pub mod Handling
pub mod Matched
pub mod Cancelling
pub mod Placing
pub mod Standing
pub mod Stored
pub mod Tests
pub mod Reloading
pub mod Finding
pub mod Pending
pub mod Payout
pub mod Balance
