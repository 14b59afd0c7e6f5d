-- ===== src/Bookings.antt =====
-- packages/services/src/bookings.ts: confirming a booking, which sells the unit.
pub mod Store
pub mod Confirm
mod Tests
