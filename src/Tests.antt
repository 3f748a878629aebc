-- ===== src/Tests.antt =====
-- Sample requests, and the theorems applied to them.
pub mod Samples
mod Windows
mod Correlation
mod Flows
mod Rules
mod Grouping
mod Access
mod Tokens
mod Operations
