-- ===== src/Commission.antt =====
-- packages/commission/src: the commission engine, a pure package.
pub mod Types
pub mod Resolve
pub mod Entries
pub mod Accrue
pub mod Release
mod Tests
