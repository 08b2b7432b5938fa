-- ===== src/Tax.antt =====
-- server/src/services/tax: the tax side of a write to QuickBooks.
pub mod Hashes
pub mod Matching
pub mod Purchase
pub mod Deposit
pub mod Prepared
pub mod Inverse
pub mod Allocation
mod Tests
