-- ===== src/Server/Errors.antt =====
-- The exceptions of the server and their translation: `_raise_for_status` and
-- `_RETRYABLE_EXCEPTIONS` of src/cfr_compliance_mcp/clients/http_client.py, `EcfrClient._request`,
-- exceptions.py and `build_error_response` of tools/_common.py. Messages are left out.
use cfr_compliance_mcp.Prelude.{
  ℕ, String, Bool, true, false, ◌&&◌, Option, none, some, List, [], ◌∷◌, leb, ltb, nat_eq, mem_text,
  if◌then◌else◌,
}

-- The subclasses of `HttpClientError`; `client_error` is the class itself.
pub data HttpError : Type 0 where
  client_error not_found rate_limited server_error timeout connection : HttpError

-- `_raise_for_status`; `none` is a status that it lets pass.
unfoldable pub raise_for_status : ℕ → Option HttpError
raise_for_status status =
    if leb 200 status && ltb status 300
    then none
    else if nat_eq status 404
    then some not_found
    else if nat_eq status 429
    then some rate_limited
    else if leb 500 status && ltb status 600
    then some server_error
    else some client_error

-- What a request of httpx gives: a response with its status, or one of its exceptions.
pub data Sent : Type 0 where
  response : ℕ → String → Sent
  timed_out connect_failed transport_failed : Sent

pub data HttpResult (A : Type 0) : Type 0 where
  raises : HttpError → HttpResult A
  returns : A → HttpResult A

unfoldable pub checked : String → Option HttpError → HttpResult String
checked text none = returns text
checked text (some e) = raises e

-- `_send` and `_raise_for_status`, one attempt of `HttpClient.get`.
unfoldable pub attempt : Sent → HttpResult String
unfolding checked
attempt (response status text) = checked text (raise_for_status status)
attempt timed_out = raises timeout
attempt connect_failed = raises connection
attempt transport_failed = raises connection

-- Membership in `_RETRYABLE_EXCEPTIONS`; no class of it has one of the others below it.
unfoldable pub is_retryable : HttpError → Bool
is_retryable server_error = true
is_retryable timeout = true
is_retryable connection = true
is_retryable rate_limited = true
is_retryable not_found = false
is_retryable client_error = false

-- The exceptions that reach a tool: those of exceptions.py, `PydanticValidationError`, and any
-- other.
pub data ToolError : Type 0 where
  pydantic_validation : ToolError
  xml_parsing cache_failure validation : ToolError
  ecfr_api ecfr_not_found ecfr_rate_limited ecfr_server ecfr_timeout ecfr_connection : ToolError
  unexpected : ToolError

-- The translation of `EcfrClient._request`.
unfoldable pub translate : HttpError → ToolError
translate not_found = ecfr_not_found
translate rate_limited = ecfr_rate_limited
translate server_error = ecfr_server
translate timeout = ecfr_timeout
translate connection = ecfr_connection
translate client_error = ecfr_api

-- `type(exc).__name__`.
unfoldable pub class_name : ToolError → String
class_name pydantic_validation = "ValidationError"
class_name xml_parsing = "XmlParsingError"
class_name cache_failure = "CacheError"
class_name validation = "ValidationError"
class_name ecfr_api = "EcfrApiError"
class_name ecfr_not_found = "EcfrNotFoundError"
class_name ecfr_rate_limited = "EcfrRateLimitedError"
class_name ecfr_server = "EcfrServerError"
class_name ecfr_timeout = "EcfrTimeoutError"
class_name ecfr_connection = "EcfrConnectionError"
class_name unexpected = "Exception"

-- `isinstance(exc, EcfrApiError)`.
unfoldable pub is_ecfr : ToolError → Bool
is_ecfr ecfr_api = true
is_ecfr ecfr_not_found = true
is_ecfr ecfr_rate_limited = true
is_ecfr ecfr_server = true
is_ecfr ecfr_timeout = true
is_ecfr ecfr_connection = true
is_ecfr _ = false

-- `_RETRYABLE_ECFR_ERRORS`.
abbrev pub retryable_ecfr_errors : List String
retryable_ecfr_errors =
    "EcfrServerError" ∷ "EcfrTimeoutError" ∷ "EcfrConnectionError" ∷ "EcfrRateLimitedError" ∷ []

pub record ErrorResponse : Type 0 where
  pub error_type : String
  pub retryable : Bool

-- `build_error_response`: the type of an exception of the project is its class, and any other is an
-- internal error.
unfoldable pub build_error_response : ToolError → ErrorResponse
build_error_response unexpected = record { error_type = "InternalError"; retryable = false }
build_error_response e = record {
  error_type = class_name e;
  retryable = is_ecfr e && mem_text (class_name e) retryable_ecfr_errors;
}
