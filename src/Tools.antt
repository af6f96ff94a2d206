-- ===== src/Tools.antt =====
-- src/cpp_mcp/tools: the handlers of the MCP tools.
pub mod GetAst
mod Tests
