-- ===== src/Errors/Handling.antt =====
-- How an exception becomes a response: src/transport/error_handlers.py and
-- src/transport/middlewares/errors_handler_middleware.py. Sentry is not part of the repository:
-- what it returns for the next captured event is an argument, `new_id`.
pub mod Middleware
pub mod Shared
mod Tests
use fast_api_example.Prelude.{
  ◌==◌, if◌then◌else◌, ℕ, String, str_append, Bool, true, false, not, ◌&&◌, Option, none, some,
  List, [], ◌∷◌,
}
use fast_api_example.Errors.{
  ErrorClass, input_validation, response_validation, validation, not_found, unknown_answer,
  ServerError, make_error, capture_by_sentry, status_code, title, as_dict, Json,
}

-- Python's truth of a text that may be `None`.
unfoldable pub given : Option String → Bool
given none = false
given (some String.[]) = false
given (some (String.◌∷◌ c s)) = true

-- An event that was sent to Sentry, with the extras and the tag that `prepare_server_exc` sets.
pub record Event : Type 0 where
  pub title_extra : Option String
  pub message_extra : Option String
  pub trace_tag : Option String

pub record Response : Type 0 where
  pub content : List (String × Json)
  pub status : ℕ
  pub headers : List (String × String)

-- What the call of a handler leaves: the exception object, which it may write to, the events that
-- it sent to Sentry, in order, and its result.
pub record Outcome (A : Type 0) : Type 0 where
  pub exc : ServerError
  pub events : List Event
  pub result : A

unfoldable pub tag : Option String → Option String
unfolding given
tag trace_id = if given trace_id then trace_id else none

-- The event of the `capture_exception` in `prepare_server_exc`.
unfoldable pub server_event : ServerError → Option String → Event
unfolding title tag
server_event exc trace_id = record {
  title_extra = some (title exc);
  message_extra = some exc.message;
  trace_tag = tag trace_id;
}

-- `if sentry_id and not exc.sentry_id: exc.sentry_id = sentry_id`
unfoldable pub keep_id : ServerError → Option String → ServerError
unfolding given
keep_id exc sentry_id =
    if given sentry_id && not (given exc.sentry_id)
    then record exc { sentry_id = sentry_id }
    else exc

-- `prepare_server_exc`
unfoldable pub prepare_server_exc :
    Option String → ServerError → Option String → Option String → Outcome (Unit {0})
unfolding keep_id server_event given capture_by_sentry
prepare_server_exc new_id exc trace_id sentry_id =
    if capture_by_sentry exc.error_class && not (given exc.sentry_id)
    then record { exc = keep_id exc new_id; events = server_event exc trace_id ∷ []; result = tt }
    else record { exc = keep_id exc sentry_id; events = []; result = tt }

-- `if old_exc and not exc.debug: exc.debug = str(old_exc)`
unfoldable pub note_old : ServerError → Option String → ServerError
unfolding given
note_old exc none = exc
note_old exc (some old_text) = if given exc.debug then exc else record exc { debug = some old_text }

abbrev sentry_id_header : String
sentry_id_header = "X-Sentry-ID"

sentry_headers : Option String → List (String × String)
sentry_headers none = []
sentry_headers (some String.[]) = []
sentry_headers (some (String.◌∷◌ c s)) = (sentry_id_header, String.◌∷◌ c s) ∷ []

unfoldable pub make_response : ServerError → Bool → Option String → Response
unfolding as_dict status_code sentry_headers
make_response exc is_debug sentry_id = record {
  content = as_dict exc is_debug;
  status = status_code exc.error_class;
  headers = sentry_headers sentry_id;
}

-- `process_server_error`; `old_text` is `str(old_exc)`.
unfoldable pub process_server_error :
    Option String
    → Option String
    → ServerError
    → Option String
    → Bool
    → Option String
    → Outcome Response
unfolding prepare_server_exc note_old make_response
process_server_error new_id trace_id exc sentry_id is_debug old_text =
    let prepared = prepare_server_exc new_id (note_old exc old_text) trace_id sentry_id in
    record {
      exc = prepared.exc;
      events = prepared.events;
      result = make_response prepared.exc is_debug sentry_id;
    }

-- `_redefine_error`, the handler of an exception of another package.
unfoldable pub redefine_error :
    Option String → Option String → String → ServerError → Bool → Outcome Response
unfolding process_server_error
redefine_error new_id trace_id exc_text server_error_instance is_debug =
    process_server_error new_id trace_id server_error_instance none is_debug (some exc_text)

-- The key that a handler is registered under: a status code, or a class of another package.
pub data Key : Type 0 where
  code : ℕ → Key
  request_validation_class response_validation_class pydantic_validation_class : Key

-- `f"{code}"`, for the two codes that are registered.
abbrev status_text : ℕ → String
status_text n = if n == 404 then "404" else if n == 405 then "405" else ""

-- `_make_server_error_instance`; for a status code the debug text names it.
unfoldable pub make_server_error_instance : Key → ErrorClass → ServerError
unfolding make_error
make_server_error_instance (code n) c =
    make_error c none (some (str_append "redefined internal http status " (status_text n)))
make_server_error_instance _ c = make_error c none none

-- The instances that `setup_fastapi_error_handlers` makes, one for each registered handler. Every
-- request is answered from them.
pub record Handlers : Type 0 where
  pub request_handler : ServerError
  pub response_handler : ServerError
  pub pydantic_handler : ServerError
  pub not_found_handler : ServerError
  pub method_handler : ServerError

-- `setup_fastapi_error_handlers`
unfoldable pub setup_fastapi_error_handlers : Handlers
unfolding make_server_error_instance
setup_fastapi_error_handlers = record {
  request_handler = make_server_error_instance request_validation_class input_validation;
  response_handler = make_server_error_instance response_validation_class response_validation;
  pydantic_handler = make_server_error_instance pydantic_validation_class validation;
  not_found_handler = make_server_error_instance (code 404) not_found;
  method_handler = make_server_error_instance (code 405) unknown_answer;
}
