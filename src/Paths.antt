-- ===== src/Paths.antt =====
-- src/cpp_mcp/core/path_guard.py: the check of a caller's path against the allowed roots.
pub mod Text
pub mod Guard
pub mod Roots
mod Tests
