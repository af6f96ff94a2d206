-- ===== src/Query.antt =====
-- The read-only graph queries: src/cpp_mcp/graphdb/neo4j_query_executor.py,
-- src/cpp_mcp/graphdb/query_executor.py, src/cpp_mcp/core/query_config.py and
-- src/cpp_mcp/tools/query_graphdb.py.
pub mod Plan
pub mod Neo4j
pub mod Indra
pub mod Tool
mod Tests
