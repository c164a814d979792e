-- ===== src/Errors/Hierarchy.antt =====
-- What the attributes of the exception classes promise (src/errors/base.py).
use fast_api_example.Prelude.{◌≡◌, true, false, arith}
use fast_api_example.Errors.{
  ErrorClass, is_server_error, is_expected_error, capture_by_sentry, base,
}

-- A class is reported to Sentry only if it is a server error and not an expected one.
pub captured_not_expected :
    (c : ErrorClass)
    → capture_by_sentry c ≡ true
    → (is_server_error c ≡ true) × (is_expected_error c ≡ false)
unfolding capture_by_sentry is_server_error is_expected_error base
captured_not_expected c h = ground arith

-- Every expected error is a server error.
pub expected_is_server : (c : ErrorClass) → is_expected_error c ≡ true → is_server_error c ≡ true
unfolding is_server_error is_expected_error base
expected_is_server c h = ground arith
