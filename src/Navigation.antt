-- ===== src/Navigation.antt =====
-- The tools of src/cpp_mcp/tools that read a translation unit: get_references.py, get_definition.py,
-- get_type_info.py, get_header_info.py and get_preprocessor_state.py.
pub mod Tree
pub mod Parsed
pub mod References
pub mod Definition
pub mod TypeInfo
pub mod HeaderInfo
pub mod Macros
pub mod Directive
pub mod Conditionals
pub mod Preprocessor
mod Tests
