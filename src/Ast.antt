-- ===== src/Ast.antt =====
-- src/cpp_mcp/core/ast_walker.py: the walk over the cursor tree under a budget of nodes and bytes,
-- in the two output formats.
pub mod Cursor
pub mod Serial
pub mod Budget
pub mod Json
pub mod Graph
pub mod Diagnostics
mod Tests
