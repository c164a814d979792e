-- ===== src/Transport/Logging/Transparent.antt =====
-- What the log of a request does to the request.
use fast_api_example.Prelude.{
  Option-cases, String, ◌≡◌, refl, ◌⊎◌, inl, inr, Option, [], ◌∷◌, ◌++◌, arith,
}
use fast_api_example.Errors.{Exception}
use fast_api_example.App.{Result, ok, err, and_then-ok}
use fast_api_example.Journal.{Journal, capture, logging_error}
use fast_api_example.Transport.Logging.{Request, Response, Codec, get_input_data}
use fast_api_example.Transport.Logging.Middleware.{
  Entry, status_of, error_of, entry_of, log_request, report, outcome_after, call,
  skipped_substrings, output_of, response_headers_of,
}

module _ {J : Type 0} (codec : Codec J) (refused : Entry → Option String)
    (text_of : Exception → String) (request : Request J) (outcome : Result Response)
    (journal : Journal Entry) where
  -- The log has an entry for the request, with its path, the status code and the error of how it
  -- ended.
  abbrev pub IsNoted : Journal Entry → Type 0
  IsNoted after =
      (entry : Entry) × (after.entries ≡ journal.entries ++ entry ∷ [])
      × (after.captured ≡ journal.captured)
      × (entry.called ≡ request.path)
      × (entry.http_status_code ≡ status_of outcome)
      × (entry.error ≡ error_of outcome)

  -- The log is as it was, and Sentry was given one error about it.
  abbrev pub IsReported : Journal Entry → Type 0
  IsReported after =
      (reason : String) × (after.entries ≡ journal.entries)
      × (after.captured ≡ journal.captured ++ logging_error reason ∷ [])

  entry_of-shown :
      (entry : Entry)
      → entry_of codec request outcome ≡ ok entry
      → (entry.called ≡ request.path)
        × (entry.http_status_code ≡ status_of outcome)
        × (entry.error ≡ error_of outcome)
  unfolding entry_of
  entry_of-shown entry h =
      let (input, e, h1) = and_then-ok (get_input_data codec request) _ entry h in
      let (output, e', h2) = and_then-ok (output_of codec outcome) _ entry h1 in
      let (headers, e'', h3) = and_then-ok request.headers _ entry h2 in
      let (response_headers, e3, h4) = and_then-ok (response_headers_of outcome) _ entry h3 in
      ground arith

  logged :
      (made : Result Entry)
      → entry_of codec request outcome ≡ made
      → IsNoted (call codec refused text_of request outcome journal).1
        ⊎ IsReported (call codec refused text_of request outcome journal).1
  unfolding call report log_request capture skipped_substrings
  logged (err e) h = rw (call, log_request, h) (inr (text_of e, refl, refl))
  logged (ok entry) h = elim (Option-cases (refused entry)) [
    | inr (reason, no_entry) ↦ rw (call, log_request, h, no_entry) (inr (reason, refl, refl))
    | inl written ↦
        rw (call, log_request, h, written)
          (inl (
            entry,
            refl,
            refl,
            (entry_of-shown entry h).0,
            (entry_of-shown entry h).1,
            (entry_of-shown entry h).2,
          ))
  ]

  unraised : (call codec refused text_of request outcome journal).0 ≡ outcome
  unfolding call outcome_after report log_request
  unraised = ground arith

  -- The wrapper of a request changes nothing of how the request ends, whatever the log, the
  -- reading of the request for it, and the texts of the headers raise. The log has one entry more,
  -- with the path, the status code and the error, or Sentry was given one error about the log.
  pub call_transparent :
      ((call codec refused text_of request outcome journal).0 ≡ outcome)
      × (IsNoted (call codec refused text_of request outcome journal).1
          ⊎ IsReported (call codec refused text_of request outcome journal).1)
  call_transparent = (unraised, logged (entry_of codec request outcome) refl)
