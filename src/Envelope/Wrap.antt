-- ===== src/Envelope/Wrap.antt =====
-- `ErrorCode`, `build_error` and `wrap_tool` of src/cpp_mcp/core/error_envelope.py.
use cpp_mcp.Base.{
  Text, List, [], ◌∷◌, none, Bool, true, false, codes, starts_with, if◌then◌else◌, All, ◌≡◌, ◌⊎◌,
  inl, inr, refl, ap,
}
use cpp_mcp.Errors.{
  ExceptionType, Result, ok, raise, path_violation_error, file_not_found_error_,
  invalid_position_error, invalid_range_error, invalid_argument_error, db_unreachable_error,
  dependency_missing_error, fatal_parse_error, config_error, read_only_violation_error,
  query_parse_error, query_unsupported_error, query_timeout_error, file_not_found_error,
  value_error, key_error, other,
}
use cpp_mcp.Envelope.Sanitize.{slash, sanitize_message, find_paths, echoed}
use cpp_mcp.Envelope.Sanitize.Redacted.{sanitized_paths_are_echoed}

pub data ErrorCode : Type 0 where
  file_not_found invalid_position invalid_range invalid_argument path_violation : ErrorCode
  db_unreachable dependency_missing parse_error internal_error : ErrorCode
  read_only_violation query_parse query_unsupported query_timeout : ErrorCode

-- `isinstance(exc, exc_type)`: no class of the table has a subclass here.
unfoldable pub is_instance : ExceptionType → ExceptionType → Bool
is_instance path_violation_error path_violation_error = true
is_instance file_not_found_error_ file_not_found_error_ = true
is_instance invalid_position_error invalid_position_error = true
is_instance invalid_range_error invalid_range_error = true
is_instance invalid_argument_error invalid_argument_error = true
is_instance db_unreachable_error db_unreachable_error = true
is_instance dependency_missing_error dependency_missing_error = true
is_instance fatal_parse_error fatal_parse_error = true
is_instance config_error config_error = true
is_instance read_only_violation_error read_only_violation_error = true
is_instance query_parse_error query_parse_error = true
is_instance query_unsupported_error query_unsupported_error = true
is_instance query_timeout_error query_timeout_error = true
is_instance file_not_found_error file_not_found_error = true
is_instance value_error value_error = true
is_instance key_error key_error = true
is_instance other other = true
is_instance _ _ = false

-- `_EXC_TO_CODE`
unfoldable pub exc_to_code : List (ExceptionType × ErrorCode)
exc_to_code =
    (path_violation_error, path_violation)
    ∷ (invalid_position_error, invalid_position)
    ∷ (invalid_range_error, invalid_range)
    ∷ (invalid_argument_error, invalid_argument)
    ∷ (dependency_missing_error, dependency_missing)
    ∷ (db_unreachable_error, db_unreachable)
    ∷ (fatal_parse_error, parse_error)
    ∷ (file_not_found_error, file_not_found)
    ∷ (file_not_found_error_, file_not_found)
    ∷ (read_only_violation_error, read_only_violation)
    ∷ (query_parse_error, query_parse)
    ∷ (query_unsupported_error, query_unsupported)
    ∷ (query_timeout_error, query_timeout)
    ∷ []

pub record Envelope : Type 0 where
  pub code : ErrorCode
  pub message : Text
  pub tool : Text
  pub request_id : Text

unfoldable pub build_error : ErrorCode → Text → Text → Text → List Text → Envelope
build_error code message tool request_id echo = record {
  code = code;
  message = sanitize_message echo message;
  tool = tool;
  request_id = request_id;
}

abbrev pub internal_message : Text
internal_message = codes "An internal error occurred."

-- The loop over the table, and the envelope for an exception that is not in it.
unfoldable pub envelope_from :
    List (ExceptionType × ErrorCode) → ExceptionType → Text → Text → Text → List Text → Envelope
unfolding is_instance
envelope_from [] exc message tool request_id echo =
    build_error internal_error internal_message tool request_id echo
envelope_from ((exc_type, code) ∷ table) exc message tool request_id echo =
    if is_instance exc exc_type
    then build_error code message tool request_id echo
    else envelope_from table exc message tool request_id echo

unfoldable pub make_envelope : ExceptionType → Text → Text → Text → List Text → Envelope
unfolding envelope_from exc_to_code
make_envelope exc message tool request_id echo =
    envelope_from exc_to_code exc message tool request_id echo

-- A keyword argument: a string, or something else.
pub data Argument : Type 0 where
  text : Text → Argument
  not_text : Argument

unfoldable pub echo_of : List Argument → List Text
echo_of [] = []
echo_of (not_text ∷ kwargs) = echo_of kwargs
echo_of (text v ∷ kwargs) =
    if starts_with (slash ∷ []) v then v ∷ echo_of kwargs else echo_of kwargs

-- What a wrapped tool returns.
pub data Outcome {ℓ} (A : Type ℓ) : Type ℓ where
  value : A → Outcome A
  envelope : Envelope → Outcome A

-- The wrapper over the result of the call; `message` is the text of the exception.
unfoldable pub wrap_tool {ℓ} :
    {A : Type ℓ} → Text → Text → List Argument → (ExceptionType → Text) → Result A → Outcome A
unfolding echo_of
wrap_tool tool request_id kwargs message (ok a) = value a
wrap_tool tool request_id kwargs message (raise exc) =
    envelope (make_envelope exc (message exc) tool request_id (echo_of kwargs))

-- The code that the documentation of each class names, and INTERNAL_ERROR for any other exception.
abbrev pub documented_code : ExceptionType → ErrorCode
documented_code path_violation_error = path_violation
documented_code file_not_found_error_ = file_not_found
documented_code file_not_found_error = file_not_found
documented_code invalid_position_error = invalid_position
documented_code invalid_range_error = invalid_range
documented_code invalid_argument_error = invalid_argument
documented_code db_unreachable_error = db_unreachable
documented_code dependency_missing_error = dependency_missing
documented_code fatal_parse_error = parse_error
documented_code read_only_violation_error = read_only_violation
documented_code query_parse_error = query_parse
documented_code query_unsupported_error = query_unsupported
documented_code query_timeout_error = query_timeout
documented_code _ = internal_error

-- The message that an envelope is built from.
abbrev pub sent_message : ExceptionType → Text → Text
sent_message config_error m = internal_message
sent_message value_error m = internal_message
sent_message key_error m = internal_message
sent_message other m = internal_message
sent_message _ m = m

pub make_envelope_lem :
    (exc : ExceptionType) (message tool request_id : Text) (echo : List Text)
    → make_envelope exc message tool request_id echo
      ≡ build_error (documented_code exc) (sent_message exc message) tool request_id echo
unfolding make_envelope
make_envelope_lem path_violation_error m t r echo = refl
make_envelope_lem _ m t r echo = refl

-- A wrapped tool never lets an exception through: it gives the value, or an envelope with the
-- documented code of the exception's class, the tool's name and the request's id, whose message has
-- no absolute path but those that begin with a string argument of the call; an exception of an
-- undocumented class gives the constant message.
pub wrapped_call :
    {A : Type 0} (tool request_id : Text) (kwargs : List Argument) (message : ExceptionType → Text)
    (r : Result A)
    → ((a : A) × (r ≡ ok a) × (wrap_tool tool request_id kwargs message r ≡ value a))
      ⊎ ((exc : ExceptionType) × (e : Envelope) × (r ≡ raise exc)
          × (wrap_tool tool request_id kwargs message r ≡ envelope e)
          × (e.code ≡ documented_code exc)
          × (e.message ≡ sanitize_message (echo_of kwargs) (sent_message exc (message exc)))
          × (e.tool ≡ tool)
          × (e.request_id ≡ request_id)
          × All (λ path. echoed (echo_of kwargs) path ≡ true) (find_paths none e.message))
unfolding wrap_tool build_error
wrapped_call tool request_id kwargs message (ok a) = inl (a, refl, refl)
wrapped_call tool request_id kwargs message (raise exc) =
    let m = sent_message exc (message exc) in
    let echo = echo_of kwargs in
    let e = build_error (documented_code exc) m tool request_id echo in
    inr (
      exc,
      e,
      refl,
      ap envelope (make_envelope_lem exc (message exc) tool request_id echo),
      refl,
      refl,
      refl,
      refl,
      sanitized_paths_are_echoed echo m,
    )
