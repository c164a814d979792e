-- ===== src/Clients/Httpx/Sending.antt =====
-- `_log_httpx_request` and `LoggingAsyncHTTPTransport.handle_async_request`.
use fast_api_example.Prelude.{
  ℤ, ◌==◌, if◌then◌else◌, ℕ, zero, suc, ◌/◌, ◌%◌, String, str_append, Option, none, some,
}
use fast_api_example.Errors.{make_error, generic_server_error, Exception, raised}
use fast_api_example.App.{Result, ok, err}
use fast_api_example.Journal.{Journal, capture, write_entry}
use fast_api_example.Clients.Httpx.{
  Request, Response, Entry, Logging, entry_of, make_input_data, get_request_object,
}

-- The part of `_log_httpx_request` after the response has been read: what it raises, if anything,
-- and the log.
unfoldable pub log_read :
    Logging
    → (Option String → Entry)
    → Result (Option String)
    → Journal Entry
    → Option Exception × Journal Entry
unfolding write_entry
log_read log entry (ok input) journal = (none, write_entry log.refused (entry input) journal)
log_read log entry (err e) journal =
    if log.is_value_error e
    then (none, write_entry log.refused (entry none) (capture e journal))
    else (some e, journal)

-- `await response.aread()`, where it raises.
unfoldable pub unread_of : Option Response → Option Exception
unread_of none = none
unread_of (some response) = response.unread

-- `_log_httpx_request`
unfoldable pub log_httpx_request :
    Logging
    → String
    → Option Request
    → Option Response
    → Option Exception
    → Option ℤ
    → Journal Entry
    → Option Exception × Journal Entry
unfolding log_read unread_of entry_of make_input_data get_request_object
log_httpx_request log destination request response error started_at journal =
    elim (unread_of response) [
      | some e ↦ (some e, journal)
      | none ↦
          log_read log (entry_of log destination request response error started_at)
            (make_input_data log.dumps (get_request_object request response)) journal
    ]

-- What `AsyncHTTPTransport.handle_async_request` ends with.
pub data Outcome : Type 0 where
  responded : Response → Outcome
  status_error : Response → Exception → Outcome
  connect_error timed_out failed : Exception → Outcome

-- The variable `response` after the `try` statement.
unfoldable pub response_of : Outcome → Option Response
response_of (responded response) = some response
response_of (status_error response e) = some response
response_of _ = none

-- The variable `error` after the `try` statement.
unfoldable pub error_of : Outcome → Option Exception
error_of (responded response) = none
error_of (status_error response e) = some e
error_of (connect_error e) = some e
error_of (timed_out e) = some e
error_of (failed e) = some e

-- The decimal digits of a number below ten.
digit : ℕ → String
digit n =
    if n == 0
    then "0"
    else if n == 1
    then "1"
    else if n == 2
    then "2"
    else if n == 3
    then "3"
    else if n == 4
    then "4"
    else if n == 5
    then "5"
    else if n == 6
    then "6"
    else if n == 7
    then "7"
    else if n == 8
    then "8"
    else "9"

-- The decimal digits of a number below `10 ^ fuel`.
decimal : ℕ → ℕ → String
unfolding digit
decimal zero n = ""
decimal (suc fuel) n =
    let above = decimal fuel (n / 10) in
    str_append (if n / 10 == 0 then "" else above) (digit (n % 10))

-- `timeout_str`, of a timeout in milliseconds.
unfoldable pub timeout_text : Option ℕ → String
unfolding decimal
timeout_text none = ""
timeout_text (some timeout) =
    if timeout == 0
    then ""
    else str_append "(" (str_append (decimal (suc timeout) (timeout / 1000)) " секунд)")

-- `ServerError(debug=...)`
unfoldable pub unreachable : String → Exception
unfolding make_error
unreachable debug = raised (make_error generic_server_error none (some debug))

-- How the `try` statement ends, without its `finally` clause.
unfoldable pub tried : String → Request → Outcome → Result Response
unfolding unreachable timeout_text
tried destination request (responded response) = ok response
tried destination request (status_error response e) = err e
tried destination request (connect_error e) =
    err (unreachable (str_append "Не удалось подключиться к " destination))
tried destination request (timed_out e) = err (
    unreachable (
      str_append "Превышено ожидание по таймауту "
        (str_append (timeout_text request.connect_timeout) (str_append " к " destination))))
tried destination request (failed e) = err e

-- An exception of the `finally` clause takes the place of how the `try` statement ended.
unfoldable pub finally_raised : {A : Type 0} → Option Exception → Result A → Result A
finally_raised none r = r
finally_raised (some e) r = err e

-- `handle_async_request`; `outcome` is what the transport of httpx ends with.
unfoldable pub handle_async_request :
    Logging → String → ℤ → Request → Outcome → Journal Entry → Result Response × Journal Entry
unfolding log_httpx_request response_of error_of tried finally_raised
handle_async_request log destination started_at request outcome journal =
    let (interrupted, journal') =
      log_httpx_request log destination (some request) (response_of outcome) (error_of outcome)
        (some started_at) journal in
    (finally_raised interrupted (tried destination request outcome), journal')
