-- ===== src/Api.antt =====
-- ui/src/api.ts.
pub mod Types
pub mod Requests
pub mod Patches
pub mod Undone
pub mod Client
mod Calls
mod Tests
