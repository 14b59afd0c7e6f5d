-- ===== src/PaymentPlans.antt =====
-- packages/services/src/payment-plans.ts: plans with milestones, and the demands that a confirmed booking
-- gets from them.
pub mod Store
pub mod Plans
pub mod Schedule
pub mod Demands
mod Tests
