-- ===== src/Drivers.antt =====
-- The graph drivers of src/cpp_mcp/graphdb, and the export of a unit with one of them.
pub mod Items
pub mod Action
pub mod Contract
pub mod Indra
pub mod Cognee
pub mod Select
pub mod Export
pub mod Neo4j
pub mod Memory
mod Tests
