-- ===== src/Envelope.antt =====
-- src/cpp_mcp/core/error_envelope.py: the error codes, the message sanitizer and `wrap_tool`.
pub mod Sanitize
pub mod Wrap
mod Tests
