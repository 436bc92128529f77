-- ===== src/Access.antt =====
-- access.rs: who can access an item.
pub mod Control
pub mod Combine
pub mod Simplify
pub mod Grants
pub mod Factor
pub mod Leftover
pub mod Exact
pub mod Narrow
pub mod Returns
mod Tests
