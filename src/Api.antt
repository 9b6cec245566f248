-- ===== src/Api.antt =====
-- apps/api/src: errors, the scope guard and the request context.
pub mod Action
pub mod Guard
pub mod Counted
pub mod Returning
pub mod Audit
pub mod Context
mod Tests
