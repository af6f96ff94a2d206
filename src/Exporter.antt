-- ===== src/Exporter.antt =====
-- src/cpp_mcp/graphdb/exporter.py: the graph that a unit is exported to.
pub mod Variables
pub mod Records
pub mod Types
pub mod Functions
pub mod Cursor
pub mod Emit
pub mod Walk
mod Tests
