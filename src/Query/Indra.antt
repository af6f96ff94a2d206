-- ===== src/Query/Indra.antt =====
-- `IndraDbQueryExecutor` of src/cpp_mcp/graphdb/indradb_query_executor.py.
pub mod Payload
pub mod Fetch
pub mod Request
pub mod Rows
pub mod Pipe
pub mod Dispatch
pub mod Connection
pub mod Limit
pub mod Matching
pub mod Truncated
pub mod Matches
mod Tests
