-- ===== src/Envelope/Tests.antt =====
-- The sanitizer and the wrapper of src/cpp_mcp/core/error_envelope.py on small messages, and the theorems
-- at them.
use cpp_mcp.Base.{
  ℕ, Text, true, List, [], ◌∷◌, none, ◌≡◌, ◌⊎◌, refl, codes, starts_with, All, list_eq, nat_eq,
}
use cpp_mcp.Errors.{ExceptionType, Result, ok, raise, path_violation_error}
use cpp_mcp.Envelope.Sanitize.{ends_path, echoed, replace, substitute, sanitize_message, find_paths}
use cpp_mcp.Envelope.Sanitize.Redacted.{sanitized_paths_are_echoed}
use cpp_mcp.Envelope.Wrap.{
  Argument, text, not_text, Envelope, envelope, value, echo_of, wrap_tool, documented_code,
  sent_message, wrapped_call,
}

program : Unit {0}
unfolding ends_path echoed replace substitute sanitize_message find_paths starts_with echo_of
program = tt

abbrev echo : List Text
echo = codes "/src/a.cpp" ∷ []

abbrev message : Text
message = codes "no '/src/a.cpp:3' in /home/me, or / there"

redacts : sanitize_message echo message ≡ codes "no '/src/a.cpp:3' in <redacted>, or / there"
unfolding program
redacts = refl

sanitized_paths_are_echoed_example :
    All (λ path. echoed echo path ≡ true) (find_paths none (sanitize_message echo message))
sanitized_paths_are_echoed_example = sanitized_paths_are_echoed echo message

given : All (λ path. echoed echo path ≡ true) (find_paths none (codes "no /src/a.cpp"))
unfolding program
given = (refl, tt)

abbrev arguments : List Argument
arguments = not_text ∷ text (codes "/src/a.cpp") ∷ text (codes "json") ∷ []

abbrev failed : Result ℕ
failed = raise path_violation_error

wrapped_call_example :
    ((a : ℕ) × (failed ≡ ok a)
      × (wrap_tool (codes "get_ast") (codes "7") arguments (λ e. message) failed ≡ value a))
    ⊎ ((exc : ExceptionType) × (e : Envelope) × (failed ≡ raise exc)
        × (wrap_tool (codes "get_ast") (codes "7") arguments (λ e. message) failed ≡ envelope e)
        × (e.code ≡ documented_code exc)
        × (e.message ≡ sanitize_message (echo_of arguments) (sent_message exc message))
        × (e.tool ≡ codes "get_ast")
        × (e.request_id ≡ codes "7")
        × All (λ path. echoed (echo_of arguments) path ≡ true) (find_paths none e.message))
wrapped_call_example = wrapped_call (codes "get_ast") (codes "7") arguments (λ e. message) failed
