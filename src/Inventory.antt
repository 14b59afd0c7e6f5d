-- ===== src/Inventory.antt =====
-- packages/services/src: the inventory of units.
pub mod Transitions
pub mod Store
pub mod HoldExpiry
pub mod Holds
mod Tests
