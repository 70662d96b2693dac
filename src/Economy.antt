-- ===== src/Economy.antt =====
-- src/lib/economy: the reputation of a service and the cost of a receipt, over evidence that other
-- modules have collected.
pub mod Reputation
pub mod Score
pub mod Receipts
pub mod Tests
