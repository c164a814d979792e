-- ===== src/Clients/Trace.antt =====
-- The trace identifier of a request: `TRACE_ID` of src/utils.py, `TraceIdMiddleware` of
-- src/transport/middlewares/trace_id_middleware.py, and `_trace_id_header_event_hook` of
-- src/integrations/integration_client_utils.py.
use fast_api_example.Prelude.{
  if◌then◌else◌, String, ◌⊎◌, inl, inr, Option, none, some, List, [], ◌∷◌, str_eq,
}

-- Headers, with their names in lower case.
abbrev pub Headers : Type 0
Headers = List (String × String)

-- `headers.get(name)`
unfoldable pub get_header : String → Headers → Option String
get_header name [] = none
get_header name ((key, value) ∷ headers) =
    if str_eq key name then some value else get_header name headers

-- `headers[name] = value`
unfoldable pub set_header : String → String → Headers → Headers
set_header name value [] = (name, value) ∷ []
set_header name value ((key, old) ∷ headers) =
    if str_eq key name then (name, value) ∷ headers else (key, old) ∷ set_header name value headers

-- `TRACE_ID.get()`: what was set, or the default of the variable.
unfoldable pub trace_id : Option String → String
trace_id none = "trace_id"
trace_id (some value) = value

-- `_trace_id_header_event_hook`; `name` is the setting `trace_id_header`.
unfoldable pub trace_id_header_event_hook : String → Option String → Headers → Headers
unfolding trace_id set_header get_header
trace_id_header_event_hook name current headers = elim (get_header name headers) [
  | none ↦ set_header name (trace_id current) headers
  | some value ↦ headers
]

-- What a request leaves: its response's headers or an exception, and the headers of the requests
-- to other systems that were sent for it, in order.
pub record Traced (E : Type 0) : Type 0 where
  pub result : Headers ⊎ E
  pub outgoing : List Headers

-- `headers.get(name, drawn)`
unfoldable pub or_drawn : String → Option String → String
or_drawn drawn none = drawn
or_drawn drawn (some value) = value

-- `TraceIdMiddleware.dispatch`; `drawn` is the text of the identifier that `uuid4` draws, and
-- `call_next` is what follows, with the value of `TRACE_ID`.
unfoldable pub trace_dispatch :
    {E : Type 0} → String → String → Headers → (Option String → Traced E) → Traced E
unfolding set_header get_header or_drawn
trace_dispatch name drawn headers call_next =
    let current = or_drawn drawn (get_header name headers) in
    let after = call_next (some current) in
    elim after.result [
      | inl response ↦ record after { result = inl (set_header name current response) }
      | inr e ↦ after
    ]
