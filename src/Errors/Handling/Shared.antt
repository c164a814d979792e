-- ===== src/Errors/Handling/Shared.antt =====
-- The handlers that `setup_fastapi_error_handlers` registers keep one exception object each, for
-- all requests (src/transport/error_handlers.py).
use fast_api_example.Prelude.{
  String, ◌≡◌, refl, ap, Bool, true, false, none, some, List, [], ◌∷◌, map, arith,
}
use fast_api_example.Errors.{ServerError}
use fast_api_example.Errors.Handling.{Response, redefine_error, given, make_response}

-- The answers to failures with the texts `texts`, one request after another, from one handler.
unfoldable pub answers : Bool → ServerError → List String → List Response
unfolding redefine_error
answers is_debug handler [] = []
answers is_debug handler (exc_text ∷ texts) =
    let done = redefine_error none none exc_text handler is_debug in
    done.result ∷ answers is_debug done.exc texts

-- The handler after its first failure.
abbrev pub noted : ServerError → String → ServerError
noted handler exc_text = record handler { debug = some exc_text }

step_kept :
    (is_debug : Bool) (handler : ServerError) (exc_text : String)
    → given handler.debug ≡ true
    → (redefine_error none none exc_text handler is_debug).exc ≡ handler
unfolding redefine_error
step_kept is_debug handler exc_text h = ground arith

step_noted :
    (is_debug : Bool) (handler : ServerError) (exc_text : String)
    → given handler.debug ≡ false
    → (redefine_error none none exc_text handler is_debug).exc ≡ noted handler exc_text
unfolding redefine_error
step_noted is_debug handler exc_text h = ground arith

result_of_step :
    (is_debug : Bool) (handler : ServerError) (exc_text : String)
    → (redefine_error none none exc_text handler is_debug).result
      ≡ make_response (redefine_error none none exc_text handler is_debug).exc is_debug none
unfolding redefine_error
result_of_step is_debug handler exc_text = refl

answers_kept :
    (is_debug : Bool) (handler : ServerError) (texts : List String)
    → given handler.debug ≡ true
    → answers is_debug handler texts ≡ map (λ _. make_response handler is_debug none) texts
unfolding answers
answers_kept is_debug handler [] h = refl
answers_kept is_debug handler (exc_text ∷ texts) h =
    rw (result_of_step is_debug handler exc_text, step_kept is_debug handler exc_text h)
      (ap (λ rest. make_response handler is_debug none ∷ rest)
        (answers_kept is_debug handler texts h))

-- A handler that holds no debug text answers every later failure with the debug text of the first
-- one, if that is not empty: the texts of the later failures never show.
pub answers_first :
    (is_debug : Bool) (handler : ServerError) (first : String) (texts : List String)
    → given handler.debug ≡ false
    → given (some first) ≡ true
    → answers is_debug handler (first ∷ texts)
      ≡ map (λ _. make_response (noted handler first) is_debug none) (first ∷ texts)
unfolding answers
answers_first is_debug handler first texts h k =
    rw (result_of_step is_debug handler first, step_noted is_debug handler first h)
      (ap (λ rest. make_response (noted handler first) is_debug none ∷ rest)
        (answers_kept is_debug (noted handler first) texts k))
