-- ===== src/Prelude.antt =====
-- The modules that the components share.
pub mod Tests
pub mod Lists
pub mod Shared
pub mod Int
pub mod Assoc
pub mod Texts
pub mod Splits
