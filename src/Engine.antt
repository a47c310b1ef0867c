-- ===== src/Engine.antt =====
-- packages/core/src/engine: the deterministic authorization engine.
pub mod Types
pub mod Window
pub mod Checks
pub mod Limits
pub mod Evaluate
pub mod Combine
pub mod Spec
pub mod Timing
pub mod Budget
pub mod Claims
pub mod Categories
pub mod Counterparty
pub mod Verdict
pub mod Cumulative
pub mod Monotone
pub mod Trust
pub mod Rollup
