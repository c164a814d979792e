-- ===== src/Errors/Handling/Middleware.antt =====
-- `ErrorsHandlerMiddleware.dispatch` (src/transport/middlewares/errors_handler_middleware.py).
use fast_api_example.Prelude.{
  if◌then◌else◌, length, String, ◌≡◌, ◌≢◌, Bool, false, not, ◌&&◌, Option, none, some, List, [],
  ◌∷◌, arith,
}
use fast_api_example.Errors.{
  ErrorClass, generic_server_error, ServerError, make_error, capture_by_sentry, is_server_error,
  status_code, raise_class, Exception, raised, raised_base, as_dict, title, text, base,
}
use fast_api_example.Errors.Handling.{
  Event, Response, process_server_error, given, tag, prepare_server_exc, keep_id, make_response,
}

-- What `call_next` ends with.
pub data Reply : Type 0 where
  returned : Response → Reply
  failed : Exception → Reply

-- The answer of a request and the events sent to Sentry for it, in order.
pub record Answer : Type 0 where
  pub response : Response
  pub events : List Event

-- The event of the middleware's own `capture_exception`.
middleware_event : Option String → Event
unfolding tag
middleware_event trace_id = record {
  title_extra = none;
  message_extra = none;
  trace_tag = tag trace_id;
}

-- `dispatch`; `first_id` and `second_id` are what Sentry returns for the first and the second
-- event, `scope_trace_id` is the entry of the ASGI scope, `trace_id` the request's header, and
-- `formatted` is `format_exc()`.
unfoldable pub dispatch :
    Option String → Option String → Option String → Option String → String → Bool → Reply → Answer
unfolding process_server_error middleware_event make_error
dispatch first_id second_id scope_trace_id trace_id formatted is_debug (returned response) =
    record { response = response; events = [] }
dispatch first_id second_id scope_trace_id trace_id formatted is_debug (failed (raised exc)) =
    let done = process_server_error first_id trace_id exc none is_debug none in
    record { response = done.result; events = done.events }
dispatch first_id second_id scope_trace_id trace_id formatted is_debug (failed exc) =
    let error = make_error generic_server_error none (some formatted) in
    let done = process_server_error second_id trace_id error first_id is_debug none in
    record { response = done.result; events = middleware_event scope_trace_id ∷ done.events }

-- In any other mode than debug a server error answers with the status code of its class and with a
-- body of its title and its message, and Sentry is told these two of it, once, if its class is
-- captured and it has no identifier yet. Neither the answer nor the events depend on its debug
-- text, nor, for any exception, on the text of the traceback.
pub dispatch-raised :
    (first_id second_id scope_trace_id trace_id : Option String) (formatted : String)
    (exc : ServerError)
    → let answer =
        dispatch first_id second_id scope_trace_id trace_id formatted false (failed (raised exc)) in
      (answer.response.status ≡ status_code exc.error_class)
      × (answer.response.content ≡ ("title", text (title exc)) ∷ ("message", text exc.message) ∷ [])
      × (answer.response.headers ≡ [])
      × (answer.events ≡ (
          if capture_by_sentry exc.error_class && not (given exc.sentry_id)
          then record {
            title_extra = some (title exc);
            message_extra = some exc.message;
            trace_tag = tag trace_id;
          }
            ∷ []
          else []))
      × ((debug : Option String) (other_text : String)
          → dispatch first_id second_id scope_trace_id trace_id other_text false
              (failed (raised (record exc { debug = debug })))
            ≡ answer)
      × ((failure : Exception) (other_text : String)
          → dispatch first_id second_id scope_trace_id trace_id other_text false (failed failure)
            ≡ dispatch first_id second_id scope_trace_id trace_id formatted false (failed failure))
unfolding dispatch process_server_error prepare_server_exc keep_id make_response as_dict
dispatch-raised first_id second_id scope_trace_id trace_id formatted exc = (
  ground arith,
  ground arith,
  ground arith,
  ground arith,
  (λ debug other_text. ground arith),
  (λ failure other_text. ground arith),
)

raise_class-base : (c : ErrorClass) → is_server_error c ≡ false → raise_class c ≡ raised_base c
unfolding raise_class
raise_class-base c h = rw h

status_code-base : (c : ErrorClass) → is_server_error c ≡ false → status_code c ≢ 520
unfolding status_code is_server_error base
status_code-base c h = ground arith

-- A class that stands directly below `BaseError` is no server error: whatever status code and
-- message it declares, the answer is 520 with the general message, and two events go to Sentry.
pub dispatch-base_class :
    (first_id second_id scope_trace_id trace_id : Option String) (formatted : String)
    (c : ErrorClass)
    → is_server_error c ≡ false
    → let answer =
        dispatch first_id second_id scope_trace_id trace_id formatted false
          (failed (raise_class c)) in
      (answer.response.status ≡ 520)
      × (answer.response.content
          ≡ ("title", text "ServerError") ∷ ("message", text "Что-то пошло не так.") ∷ [])
      × (length answer.events ≡ 2)
      × (status_code c ≢ 520)
unfolding dispatch process_server_error prepare_server_exc keep_id make_response
dispatch-base_class first_id second_id scope_trace_id trace_id formatted c h =
    rw (raise_class-base c h) (ground arith, ground arith, ground arith, status_code-base c h)
