-- ===== src/Ledger.antt =====
-- packages/services/src/commission.ts: the ledger of commission entries, their accrual and their disputes.
pub mod Store
pub mod Scope
pub mod Accrual
pub mod Disputes
mod Tests
