-- ===== src/Transport/Logging/Tests.antt =====
-- Tests of the log of the requests, and an instance of the theorem about it.
use fast_api_example.Prelude.{String, ◌≡◌, refl, ◌⊎◌, true, none, some, [], ◌∷◌}
use fast_api_example.Errors.{other}
use fast_api_example.App.{Result, ok, err}
use fast_api_example.Journal.{Journal}
use fast_api_example.Transport.Logging.{
  Request, Response, Codec, object, other_json, field, file, get_input_data,
}
use fast_api_example.Transport.Logging.Middleware.{Entry, call, is_substring}
use fast_api_example.Transport.Logging.Transparent.{IsNoted, IsReported, call_transparent}

-- JSON values are texts, and an object is written as its first value.
abbrev codec : Codec String
codec = record {
  of_text = λ s. s;
  of_names = λ names. elim names [ [] ↦ "" | name ∷ rest ↦ name ];
  dumps = λ input. elim input [
    | object [] ↦ ok "{}"
    | object (entry ∷ entries) ↦ ok entry.1
    | other_json truthy value ↦ ok value
  ];
  is_suppressed = λ e. true;
  is_unicode_error = λ e. true;
}

abbrev posted : Request String
posted = record {
  http_method = "POST";
  path = "/api/order/checkout";
  json = ok (other_json true "[1]");
  query_params = ("a", "b") ∷ [];
  form = ok [];
  headers = ok "{}";
}

abbrev answered : Result Response
answered = ok (record { status_code = 200; body = none; headers = ok "{}" })

abbrev empty_journal : Journal Entry
empty_journal = record { entries = []; captured = [] }

-- The body is a list and there are parameters, so the log raises, and the answer is the same.
call_transparent_example :
    ((call codec (λ entry. none) (λ e. "AttributeError") posted answered empty_journal).0
      ≡ answered)
    × (IsNoted codec
          (λ entry. none)
          (λ e. "AttributeError")
          posted
          answered
          empty_journal
          (call codec (λ entry. none) (λ e. "AttributeError") posted answered empty_journal).1
        ⊎ IsReported codec
            (λ entry. none)
            (λ e. "AttributeError")
            posted
            answered
            empty_journal
            (call codec (λ entry. none) (λ e. "AttributeError") posted answered empty_journal).1)
call_transparent_example =
    call_transparent codec (λ entry. none) (λ e. "AttributeError") posted answered empty_journal

posted_reported :
    (call codec (λ entry. none) (λ e. "AttributeError") posted answered empty_journal).1.entries
    ≡ []
unfolding call
posted_reported = refl

upload : Request String
upload = record posted {
  json = err (other "JSONDecodeError");
  query_params = [];
  form = ok (field "title" "Chair" ∷ file "a.png" ∷ []);
}

upload_input : get_input_data codec upload ≡ ok (some "Chair")
unfolding get_input_data upload
upload_input = refl

health_is_substring : is_substring "debug/health" "/api/debug/health" ≡ true
unfolding is_substring
health_is_substring = refl
