-- ===== src/Introspect.antt =====
-- The schema of a live graph database: src/cpp_mcp/graphdb/schema_introspector.py and the tool
-- src/cpp_mcp/tools/describe_graph_schema.py.
pub mod Entries
pub mod Indra
pub mod Neo4j
pub mod Tool
mod Tests
