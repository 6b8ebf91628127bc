-- ===== src/Tests.antt =====
-- Runs of the model on small inputs, and each theorem at an input that meets its hypotheses.
pub mod Transactions
pub mod Records
pub mod Pages
pub mod Files
pub mod Pools
pub mod Rows
pub mod Messages
pub mod Tables
pub mod Caches
pub mod Columns
pub mod Logs
pub mod Buckets
pub mod Texts
pub mod Vacuums
pub mod Keys
