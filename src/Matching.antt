-- ===== src/Matching.antt =====
-- services/matching: the order book of a symbol and the engine that matches crossing orders.
pub mod Heap
pub mod Book
pub mod Engine
pub mod Apart
pub mod Exchange
pub mod Tests
