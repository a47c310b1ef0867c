-- ===== src/Merchant.antt =====
-- packages/core/src/merchant.ts: merchant identity, and the trust that each identifier carries.
pub mod Types
pub mod Domain
pub mod Matching
pub mod Resolve
pub mod Directory
pub mod Hosts
pub mod Matches
pub mod Trust
