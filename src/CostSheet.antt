-- ===== src/CostSheet.antt =====
-- packages/services/src/cost-sheet.ts: what a customer owes for a unit, and what commission is paid on.
pub mod Types
pub mod Compute
pub mod Totals
pub mod Reconcile
pub mod Commissionable
pub mod Refusals
mod Tests
