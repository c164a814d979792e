-- ===== src/Clients/Httpx.antt =====
-- `LoggingAsyncHTTPTransport` and `_log_httpx_request` of
-- src/integrations/integration_client_utils.py.
pub mod Sending
pub mod Logged
use Prim.Native.Char.{code}
use fast_api_example.Prelude.{
  ◌-ℤ◌, ℤ, pos, eq_ℤ, ◌==◌, if◌then◌else◌, ℕ, String, str_append, Bool, false, Option, none, some,
  List, [], ◌∷◌,
}
use fast_api_example.Errors.{Exception}
use fast_api_example.Clients.Trace.{Headers}
use fast_api_example.Dict.{put_entries}
use fast_api_example.App.{Result, ok, err}

-- A request of httpx. The content is its text, where the bytes are one, or what `decode` raises;
-- `port` is the text of the port, where the address has one.
pub record Request : Type 0 where
  pub http_method : String
  pub scheme : String
  pub host : String
  pub port : Option String
  pub path : String
  pub params : List (String × String)
  pub content : Option (Result String)
  pub headers : Headers
  -- `extensions['timeout']['connect']`, in milliseconds
  pub connect_timeout : Option ℕ

-- A response of httpx: what reading its body raises, if anything, its text and the time that it
-- took, where httpx has them, and the request that it answers, where it is set.
pub record Response : Type 0 where
  pub status_code : ℕ
  pub unread : Option Exception
  pub text : Option String
  pub elapsed : Option ℤ
  pub headers : Headers
  pub request : Option Request

-- `_get_request_object`
unfoldable pub get_request_object : Option Request → Option Response → Option Request
get_request_object request none = request
get_request_object request (some response) = elim response.request [
  | none ↦ request
  | some own ↦ some own
]

-- `dict(pairs)`
unfoldable pub dict_of : List (String × String) → List (String × String)
unfolding put_entries
dict_of pairs = put_entries pairs []

-- `_make_input_data`, over the `orjson` behind `dump_json`.
unfoldable pub make_input_data :
    (List (String × String) → Result String) → Option Request → Result (Option String)
unfolding dict_of
make_input_data dumps none = ok none
make_input_data dumps (some request) = elim request.params [
  | [] ↦ elim request.content [
    | none ↦ ok none
    | some decoded ↦ elim decoded [ ok s ↦ ok (some s) | err e ↦ err e ]
  ]
  | param ∷ params ↦ elim (dumps (dict_of (param ∷ params))) [ ok s ↦ ok (some s) | err e ↦ err e ]
]

-- `_make_method`
unfoldable pub make_method : Option Request → String
make_method none = ""
make_method (some request) = str_append request.scheme (
    str_append "://" (
      str_append request.host (
        str_append (elim request.port [ none ↦ "" | some port ↦ str_append ":" port ])
          request.path)))

-- `text.endswith('=')`
unfoldable pub ends_with_eq : String → Bool
ends_with_eq String.[] = false
ends_with_eq (String.◌∷◌ c String.[]) = code c == b'='
ends_with_eq (String.◌∷◌ c (String.◌∷◌ d s)) = ends_with_eq (String.◌∷◌ d s)

-- What the log shows of the text of a response.
unfoldable pub shown_text : Option String → Option String
unfolding ends_with_eq
shown_text none = none
shown_text (some s) = if ends_with_eq s then some "base64 content ..." else some s

-- An entry of the log.
pub record Entry : Type 0 where
  pub destination : String
  pub http_method : Option String
  pub called : String
  pub processing_time : Option ℤ
  pub http_status_code : Option ℕ
  pub input_data : Option String
  pub output_data : Option String
  pub request_headers : Option Headers
  pub response_headers : Option Headers
  pub error : Option Exception

-- The libraries that the log calls: `orjson`, the clock, and what `logger.info` raises, if
-- anything, with the text of that exception; `is_value_error` is `isinstance(exc, ValueError)`.
pub record Logging : Type 0 where
  pub dumps : List (String × String) → Result String
  pub time : ℤ
  pub is_value_error : Exception → Bool
  pub refused : Entry → Option String

-- `response.elapsed.total_seconds()`, or the time since the start.
unfoldable pub processing_time : Logging → Option ℤ → Response → Option ℤ
processing_time log started_at response = elim response.elapsed [
  | some seconds ↦ some seconds
  | none ↦ elim started_at [
    | none ↦ none
    | some started ↦ if eq_ℤ started (pos 0) then none else some (log.time -ℤ started)
  ]
]

-- `dict(headers) if headers else None`
unfoldable pub filled : Headers → Option Headers
unfolding dict_of
filled [] = none
filled (header ∷ headers) = some (dict_of (header ∷ headers))

-- The entry of the log, with the input data.
unfoldable pub entry_of :
    Logging
    → String
    → Option Request
    → Option Response
    → Option Exception
    → Option ℤ
    → Option String
    → Entry
unfolding get_request_object make_method shown_text processing_time filled
entry_of log destination given response error started_at input =
    let request = get_request_object given response in
    record {
      destination = destination;
      http_method = elim request [ none ↦ none | some r ↦ some r.http_method ];
      called = make_method request;
      processing_time = elim response [ none ↦ none | some r ↦ processing_time log started_at r ];
      http_status_code = elim response [ none ↦ none | some r ↦ some r.status_code ];
      input_data = input;
      output_data = shown_text (elim response [ none ↦ none | some r ↦ r.text ]);
      request_headers = elim request [ none ↦ none | some r ↦ filled r.headers ];
      response_headers = elim response [ none ↦ none | some r ↦ filled r.headers ];
      error = error;
    }
