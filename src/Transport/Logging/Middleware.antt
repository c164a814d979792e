-- ===== src/Transport/Logging/Middleware.antt =====
-- `LoggingMiddlewareBase.__call__` with the classes of `FastAPILoggingMiddleware`
-- (src/transport/middlewares/logging_middleware.py).
use fast_api_example.Prelude.{
  ◌==◌, if◌then◌else◌, any, ℕ, String, Bool, true, false, ◌&&◌, ◌||◌, Option, none, some, List, [],
  ◌∷◌, ◌++◌,
}
use Prim.Native.Char.{code}
use fast_api_example.Errors.{Exception, raised, status_code}
use fast_api_example.App.{Result, ok, err, and_then}
use fast_api_example.Journal.{Journal, capture, logging_error}
use fast_api_example.Transport.Logging.{Request, Response, Codec, get_input_data, output_data}

-- `LOGGING_SUBSTRINGS_OF_ROUTES_FOR_SKIP`
abbrev pub logging_substrings_of_routes_for_skip : List String
logging_substrings_of_routes_for_skip = "metrics" ∷ "swagger" ∷ "debug/health" ∷ []

-- The class attribute of the same name, which `FastAPILoggingMiddleware` inherits.
unfoldable pub skipped_substrings : List String
skipped_substrings = []

-- `text.startswith(prefix)`
unfoldable pub starts_with : String → String → Bool
starts_with String.[] s = true
starts_with (String.◌∷◌ c prefix) String.[] = false
starts_with (String.◌∷◌ c prefix) (String.◌∷◌ d s) = code c == code d && starts_with prefix s

-- `substring in text`
unfoldable pub is_substring : String → String → Bool
unfolding starts_with
is_substring substring String.[] = starts_with substring String.[]
is_substring substring (String.◌∷◌ c s) =
    starts_with substring (String.◌∷◌ c s) || is_substring substring s

-- An entry of the log; the time of processing is left out.
pub record Entry : Type 0 where
  pub destination : String
  pub http_method : String
  pub called : String
  pub http_status_code : Option ℕ
  pub input_data : Option String
  pub output_data : Option String
  pub request_headers : String
  pub response_headers : Option String
  pub error : Option Exception

-- The variable `http_status_code` after the `try` statement.
unfoldable pub status_of : Result Response → Option ℕ
status_of (ok response) = some response.status_code
status_of (err (raised e)) = some (status_code e.error_class)
status_of (err _) = none

-- The variable `error` after the `try` statement.
unfoldable pub error_of : Result Response → Option Exception
error_of (ok response) = none
error_of (err e) = some e

-- `wrapped_response.output_data if wrapped_response else None`
unfoldable pub output_of : {J : Type 0} → Codec J → Result Response → Result (Option String)
unfolding output_data
output_of codec (ok response) = output_data codec response
output_of codec (err e) = ok none

-- `wrapped_response.headers if wrapped_response else None`
unfoldable pub response_headers_of : Result Response → Result (Option String)
response_headers_of (ok response) = elim response.headers [ ok s ↦ ok (some s) | err e ↦ err e ]
response_headers_of (err e) = ok none

module _ {J : Type 0} (codec : Codec J) where
  -- The dictionary that is given to `logger.info`.
  unfoldable pub entry_of : Request J → Result Response → Result Entry
  unfolding get_input_data output_of response_headers_of status_of error_of
  entry_of request outcome = and_then (get_input_data codec request) (λ input.
      and_then (output_of codec outcome) (λ output. and_then request.headers (λ request_headers.
        and_then (response_headers_of outcome) (λ response_headers. ok (record {
          destination = "internal";
          http_method = request.http_method;
          called = request.path;
          http_status_code = status_of outcome;
          input_data = input;
          output_data = output;
          request_headers = request_headers;
          response_headers = response_headers;
          error = error_of outcome;
        })))))

  -- The statement in the `try` of the `finally` clause: what it raises, if anything, and the log.
  unfoldable pub log_request :
      (Entry → Option String)
      → (Exception → String)
      → Request J
      → Result Response
      → Journal Entry
      → Option String × Journal Entry
  unfolding entry_of skipped_substrings is_substring
  log_request refused text_of request outcome journal =
      if any (λ substring. is_substring substring request.path) skipped_substrings
      then (none, journal)
      else elim (entry_of request outcome) [
        | err e ↦ (some (text_of e), journal)
        | ok entry ↦ elim (refused entry) [
          | some reason ↦ (some reason, journal)
          | none ↦ (none, record journal { entries = journal.entries ++ entry ∷ [] })
        ]
      ]

  -- The `except Exception` clause of the `finally` clause, which raises nothing.
  unfoldable pub report : Option String × Journal Entry → Option Exception × Journal Entry
  unfolding capture logging_error
  report (none, journal) = (none, journal)
  report (some reason, journal) = (none, capture (logging_error reason) journal)

  -- An exception of the `finally` clause takes the place of how the `try` statement ended.
  unfoldable pub outcome_after : Option Exception → Result Response → Result Response
  outcome_after none outcome = outcome
  outcome_after (some e) outcome = err e

  -- `__call__`; `outcome` is what `call_next(request)` ends with.
  unfoldable pub call :
      (Entry → Option String)
      → (Exception → String)
      → Request J
      → Result Response
      → Journal Entry
      → Result Response × Journal Entry
  unfolding log_request report outcome_after
  call refused text_of request outcome journal =
      let (interrupted, journal') = report (log_request refused text_of request outcome journal) in
      (outcome_after interrupted outcome, journal')
