-- ===== src/Errors/Tests.antt =====
-- Tests of the exception classes at concrete classes.
use fast_api_example.Prelude.{◌≡◌, refl, true, none, some, [], ◌∷◌}
use fast_api_example.Errors.{
  raise_class, is_expected, forbidden, init_payment, make_error, as_dict, text, null,
}

forbidden_is_expected : is_expected (raise_class forbidden) ≡ true
unfolding is_expected raise_class
forbidden_is_expected = refl

as_dict-make_error :
    as_dict (make_error init_payment (some "") none) true
    ≡ ("title", text "InitPaymentError")
      ∷ ("message", text "Что-то пошло не так.")
      ∷ ("debug", null)
      ∷ []
unfolding as_dict make_error
as_dict-make_error = refl
