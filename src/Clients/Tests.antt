-- ===== src/Clients/Tests.antt =====
-- Tests of the clients of other systems, and instances of the theorems about them.
use fast_api_example.Prelude.{
  ◌+ℤ◌, ◌-ℤ◌, ◌+ℤ◌, ◌-ℤ◌, pos, All, ℕ, String, ◌≡◌, refl, ◌⊎◌, true, false, none, some, List, [],
  ◌∷◌, arith,
}
use fast_api_example.Errors.{other}
use fast_api_example.App.{ok, ◌>>=◌}
use fast_api_example.Journal.{Journal}
use fast_api_example.Clients.Trace.{get_header, trace_id_header_event_hook}
use fast_api_example.Clients.Cdek.{
  Calls, Service, TokenReply, oauth_token, tarifflist, deliverypoints, get_token, make_client,
  set_auth_token,
}
use fast_api_example.Clients.Cdek.Granted.{IsComplete}
use fast_api_example.Clients.Cdek.Kept.{IsKept}
use fast_api_example.Clients.Cdek.Fresh.{
  IsFound, IsNew, IsGranting, get_token_fresh, get_token_returns,
}
use fast_api_example.Clients.Cdek.Runs.{
  Call, get_offices_call, calculate_call, run_calls, IsAuthorized, run_calls-IsAuthorized, started,
}
use fast_api_example.Clients.Httpx.{
  Entry, Request, Logging, make_input_data, get_request_object, make_method, shown_text,
}
use fast_api_example.Clients.Httpx.Sending.{unread_of, response_of, connect_error, timeout_text}
use fast_api_example.Clients.Httpx.Logged.{IsHandled, sent_with, handle_async_request_logged}

abbrev granted_reply : TokenReply
granted_reply = record { is_success = true; access_token = ok "t"; expires_in = ok (pos 3600) }

-- A service that grants a token for an hour whenever it is asked, and a clock that moves by a
-- second with each reading.
abbrev service : Service ℕ ℕ
service = record {
  clock = λ n. pos n;
  post_oauth = λ n. ok granted_reply;
  get_deliverypoints = λ header params. ok params;
  post_tarifflist = λ header body. ok body;
}

service-IsGranting : IsGranting service
service-IsGranting n = ("t", pos 3600, (granted_reply, refl, refl, refl, refl))

service-IsComplete : IsComplete service
service-IsComplete n reply token posted success access =
    let same : granted_reply ≡ reply = ground arith in (pos 3600, rw (← same) refl)

abbrev first_calls : List (Call ℕ)
first_calls = get_offices_call 7 ∷ calculate_call 8 ∷ []

run_calls-IsAuthorized_example :
    IsKept service (run_calls service first_calls (started service "id" "password"))
    × All
        (IsAuthorized service)
        (run_calls service first_calls (started service "id" "password")).sent
run_calls-IsAuthorized_example =
    run_calls-IsAuthorized service service-IsComplete first_calls "id" "password"

-- Two calls, and one request for a token.
first_calls_sent :
    (run_calls service first_calls (started service "id" "password")).sent
    ≡ oauth_token "client_credentials" "id" "password"
      ∷ deliverypoints "Bearer t" 7
      ∷ tarifflist "Bearer t" 8
      ∷ []
unfolding run_calls get_token make_client ◌>>=◌ set_auth_token ◌+ℤ◌ ◌-ℤ◌
first_calls_sent = refl

abbrev after_calls : Calls ℕ
after_calls = run_calls service first_calls (started service "id" "password")

get_token_fresh_example :
    IsFound service after_calls "t" (get_token service after_calls).1
    ⊎ IsNew service after_calls "t" (get_token service after_calls).1
unfolding run_calls get_token make_client ◌>>=◌ set_auth_token ◌+ℤ◌ ◌-ℤ◌
get_token_fresh_example =
    get_token_fresh service service-IsComplete after_calls (get_token service after_calls).1 "t"
      (run_calls-IsAuthorized service service-IsComplete first_calls "id" "password").0 refl

get_token_returns_example : (token : String) × ((get_token service after_calls).0 ≡ ok token)
get_token_returns_example =
    get_token_returns service service-IsGranting after_calls
      (run_calls-IsAuthorized service service-IsComplete first_calls "id" "password").0

abbrev plain_log : Logging
plain_log = record {
  dumps = λ pairs. ok "{}";
  time = pos 5;
  is_value_error = λ e. false;
  refused = λ entry. none;
}

abbrev ping : Request
ping = record {
  http_method = "GET";
  scheme = "https";
  host = "api.example";
  port = some "8443";
  path = "/ping";
  params = [];
  content = none;
  headers = [];
  connect_timeout = some 5000;
}

abbrev no_entries : Journal Entry
no_entries = record { entries = []; captured = [] }

handle_async_request_logged_example :
    IsHandled plain_log "cdek"
      (pos 1)
      ping
      (connect_error (other "ConnectError"))
      no_entries
      (sent_with plain_log "cdek" (pos 1) ping (connect_error (other "ConnectError")) no_entries)
unfolding make_input_data get_request_object unread_of response_of
handle_async_request_logged_example =
    handle_async_request_logged plain_log "cdek" (pos 1) ping (connect_error (other "ConnectError"))
      no_entries refl (λ e h. absurd (ground arith))

ping_method : make_method (some ping) ≡ "https://api.example:8443/ping"
unfolding make_method
ping_method = refl

ping_timeout : timeout_text ping.connect_timeout ≡ "(5 секунд)"
unfolding timeout_text
ping_timeout = refl

base64_hidden : shown_text (some "aGVsbG8=") ≡ some "base64 content ..."
unfolding shown_text
base64_hidden = refl

-- The trace identifier of a request goes on to another system.
trace_goes_on :
    get_header "x-trace-id" (trace_id_header_event_hook "x-trace-id" (some "a") []) ≡ some "a"
unfolding get_header trace_id_header_event_hook
trace_goes_on = refl
