-- ===== src/Clients/Httpx/Logged.antt =====
-- What a request of a client ends with, and what the log shows of it.
use fast_api_example.Prelude.{
  ℤ, String, ◌≡◌, refl, true, Option, none, some, List, [], ◌∷◌, ◌++◌, append-nil,
}
use fast_api_example.Errors.{ServerError, make_error, generic_server_error, Exception, raised}
use fast_api_example.App.{Result, ok, err}
use fast_api_example.Journal.{Journal, capture, IsWritten, write_entry-IsWritten}
use fast_api_example.Clients.Httpx.{
  Request, Response, Entry, Logging, entry_of, make_input_data, get_request_object,
}
use fast_api_example.Clients.Httpx.Sending.{
  log_read, unread_of, log_httpx_request, Outcome, responded, status_error, connect_error,
  timed_out, failed, response_of, error_of, tried, unreachable, finally_raised,
  handle_async_request, unreachable,
}

-- How a request ends for how the transport of httpx ends: a response and an exception of another
-- kind pass as they are, and a failed connection and a timeout become the general server error.
abbrev pub IsEnding : Outcome → Result Response → Type 0
IsEnding (responded response) r = r ≡ ok response
IsEnding (status_error response e) r = r ≡ err e
IsEnding (connect_error e) r =
    (error : ServerError) × (r ≡ err (raised error))
    × (error.error_class ≡ generic_server_error)
    × (error.message ≡ "Что-то пошло не так.")
IsEnding (timed_out e) r =
    (error : ServerError) × (r ≡ err (raised error))
    × (error.error_class ≡ generic_server_error)
    × (error.message ≡ "Что-то пошло не так.")
IsEnding (failed e) r = r ≡ err e

server_error_of : Option String → ServerError
unfolding make_error
server_error_of debug = make_error generic_server_error none debug

tried-IsEnding :
    (destination : String) (request : Request) (outcome : Outcome)
    → IsEnding outcome (tried destination request outcome)
unfolding tried unreachable server_error_of
tried-IsEnding destination request (responded response) = refl
tried-IsEnding destination request (status_error response e) = refl
tried-IsEnding destination request (connect_error e) = (server_error_of (some _), refl, refl, refl)
tried-IsEnding destination request (timed_out e) = (server_error_of (some _), refl, refl, refl)
tried-IsEnding destination request (failed e) = refl

module _ (log : Logging) (destination : String) (started_at : ℤ) (request : Request)
    (outcome : Outcome) (journal : Journal Entry) where
  -- The entry about the request, with these input data.
  abbrev pub entry_with : Option String → Entry
  entry_with =
      entry_of log destination (some request) (response_of outcome) (error_of outcome)
        (some started_at)

  abbrev pub input_of : Result (Option String)
  input_of = make_input_data log.dumps (get_request_object (some request) (response_of outcome))

  abbrev pub sent_with : Result Response × Journal Entry
  sent_with = handle_async_request log destination started_at request outcome journal

  logged :
      (input : Result (Option String))
      → input_of ≡ input
      → unread_of (response_of outcome) ≡ none
      → sent_with ≡ (
          let (interrupted, journal') = log_read log entry_with input journal in
          (finally_raised interrupted (tried destination request outcome), journal'))
  unfolding handle_async_request log_httpx_request
  logged input same read = rw (log_httpx_request, read, same) refl

  abbrev pub IsHandled : Result Response × Journal Entry → Type 0
  IsHandled (result, after) =
      IsEnding outcome result
      × ((shown : Option String) × (noted : List Exception) × IsWritten log.refused
            (entry_with shown) (record journal { captured = journal.captured ++ noted }) after)

  request-IsHandled :
      (input : Result (Option String))
      → input_of ≡ input
      → unread_of (response_of outcome) ≡ none
      → ((e : Exception) → input ≡ err e → log.is_value_error e ≡ true)
      → IsHandled sent_with
  unfolding log_read finally_raised capture
  request-IsHandled (ok input) same read readable = rw (logged (ok input) same read) (
    tried-IsEnding destination request outcome,
    (
      input,
      [],
      rw (append-nil journal.captured)
          (write_entry-IsWritten log.refused (entry_with input) journal),
    ),
  )
  request-IsHandled (err e) same read readable =
      rw (logged (err e) same read, readable e refl)
        (
          tried-IsEnding destination request outcome,
          (none, e ∷ [], write_entry-IsWritten log.refused (entry_with none) (capture e journal)),
        )

  -- Where the body of a response can be read, and the input data of the request raise value errors
  -- at most, a request ends as the transport of httpx does, but that a failed connection and a
  -- timeout become server errors; and the log has one entry more for it, with its destination, its
  -- response and its error, or, where the log itself raised, Sentry was given an error about it.
  pub handle_async_request_logged :
      unread_of (response_of outcome) ≡ none
      → ((e : Exception) → input_of ≡ err e → log.is_value_error e ≡ true)
      → IsHandled sent_with
  handle_async_request_logged read readable = request-IsHandled input_of refl read readable

  -- Where reading the body of a response raises, so does the request, with the same exception: a
  -- timeout in the body is no server error, and the log has no entry for it.
  pub handle_async_request_unread :
      (e : Exception) → unread_of (response_of outcome) ≡ some e → sent_with ≡ (err e, journal)
  unfolding handle_async_request log_httpx_request finally_raised
  handle_async_request_unread e unread = rw (log_httpx_request, unread) refl
