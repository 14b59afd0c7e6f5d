-- ===== src/Receipts.antt =====
-- packages/services/src/receipts.ts: receipts, from entry to clearance, and what they pay.
pub mod Store
pub mod Release
pub mod Demands
pub mod Verify
pub mod Credit
pub mod Tests
