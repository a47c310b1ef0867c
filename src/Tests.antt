-- ===== src/Tests.antt =====
-- Concrete runs of the model: sample data, tests and examples of the theorems.
mod Samples
mod Merchants
mod Decisions
mod Windows
mod Examples
mod Ledgers
mod Services
mod Approvals
mod Chains
mod Stores
mod Payments
