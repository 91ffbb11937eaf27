-- ===== src/Attention.antt =====
-- ui/src/views/AttentionView.tsx: the overdue and the slipped tasks, and what is done to many at once.
pub mod Copy
pub mod Selection
pub mod Bulk
pub mod Events
mod Consistent
mod Found
mod Undo
mod Moves
mod Sets
mod Tests
