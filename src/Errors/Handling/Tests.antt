-- ===== src/Errors/Handling/Tests.antt =====
-- Tests of the error handlers, and instances of the theorems about them.
use fast_api_example.Prelude.{
  String, Option, if◌then◌else◌, length, String, ◌≡◌, refl, ◌≢◌, true, false, not, ◌&&◌, none, some,
  [], ◌∷◌, map,
}
use fast_api_example.Errors.{
  ServerError, Exception, title, make_error, text, catalog_item_out_of_stock, raise_class,
  status_code, forbidden, is_server_error, raised, capture_by_sentry,
}
use fast_api_example.Errors.Handling.{setup_fastapi_error_handlers, make_response, given, tag}
use fast_api_example.Errors.Handling.Shared.{answers, answers_first, noted}
use fast_api_example.Errors.Handling.Middleware.{
  dispatch, failed, dispatch-base_class, dispatch-raised,
}

abbrev request_handler : ServerError
request_handler = setup_fastapi_error_handlers.request_handler

-- The second client sees the debug text of the first client's request.
answers_first_example :
    answers true request_handler ("first" ∷ "second" ∷ [])
    ≡ map {A = String}
        (λ _. make_response (noted request_handler "first") true none)
        ("first" ∷ "second" ∷ [])
unfolding setup_fastapi_error_handlers given
answers_first_example = answers_first true request_handler "first" ("second" ∷ []) refl refl

second_shows_first :
    (make_response (noted request_handler "first") true none).content
    ≡ ("title", text "InputValidationError")
      ∷ ("message", text "Некорректный запрос")
      ∷ ("debug", text "first")
      ∷ []
unfolding make_response setup_fastapi_error_handlers
second_shows_first = refl

dispatch-base_class_example :
    let answer =
      dispatch
        (some "a")
        (some "b")
        none
        none
        "Traceback"
        false
        (failed (raise_class catalog_item_out_of_stock)) in
    (answer.response.status ≡ 520)
    × (answer.response.content
        ≡ ("title", text "ServerError") ∷ ("message", text "Что-то пошло не так.") ∷ [])
    × (length answer.events ≡ 2)
    × (status_code catalog_item_out_of_stock ≢ 520)
unfolding is_server_error
dispatch-base_class_example =
    dispatch-base_class (some "a") (some "b") none none "Traceback" catalog_item_out_of_stock refl

dispatch-raised_example :
    let exc = make_error forbidden none none in
    let answer = dispatch none none none none "" false (failed (raised exc)) in
    (answer.response.status ≡ status_code exc.error_class)
    × (answer.response.content ≡ ("title", text (title exc)) ∷ ("message", text exc.message) ∷ [])
    × (answer.response.headers ≡ [])
    × (answer.events ≡ (
        if capture_by_sentry exc.error_class && not (given exc.sentry_id)
        then record {
          title_extra = some (title exc);
          message_extra = some exc.message;
          trace_tag = tag none;
        }
          ∷ []
        else []))
    × ((debug : Option String) (other_text : String)
        → dispatch none none none none other_text false
            (failed (raised (record exc { debug = debug })))
          ≡ answer)
    × ((failure : Exception) (other_text : String)
        → dispatch none none none none other_text false (failed failure)
          ≡ dispatch none none none none "" false (failed failure))
dispatch-raised_example = dispatch-raised none none none none "" (make_error forbidden none none)
