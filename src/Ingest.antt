-- ===== src/Ingest.antt =====
-- The tool `ingest_code` of src/cpp_mcp/tools/ingest_code.py, which exports files to a graph database.
pub mod Collect
pub mod Files
pub mod Checks
pub mod Tool
mod Tests
