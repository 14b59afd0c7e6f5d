-- ===== src/Payouts.antt =====
-- packages/services/src/payouts.ts: payout batches, from preparation to export, and recoveries.
pub mod Store
pub mod Grouping
pub mod Prepare
pub mod Approve
pub mod Export
pub mod Tests
