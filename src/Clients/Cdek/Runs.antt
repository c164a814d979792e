-- ===== src/Clients/Cdek/Runs.antt =====
-- Runs of calls of the client of the delivery service.
use fast_api_example.Prelude.{
  ℤ, ltb_ℤ, All, All-append, ℕ, suc, String, ◌≡◌, refl, sym, ◌∙◌, ◌⊎◌, inl, inr, true, some, List,
  [], ◌∷◌, ◌++◌, map, append-nil, append_assoc, arith,
}
use fast_api_example.Errors.{Exception}
use fast_api_example.App.{Action, ok, err, Result-cases, ◌>>=◌}
use fast_api_example.Clients.Cdek.{
  Calls, Service, Sent, oauth_token, deliverypoints, tarifflist, get_token, bearer, get_offices,
  calculate, make_client,
}
use fast_api_example.Clients.Cdek.Granted.{Grants, IsComplete}
use fast_api_example.Clients.Cdek.Kept.{
  IsKept, read_once, get_token_cached, get_token-IsKept, IsKept-mono, get_token-sent,
}
use fast_api_example.Clients.Cdek.Fresh.{IsFound, IsNew, get_token_fresh}

-- A call of the client.
pub data Call (Body : Type 0) : Type 0 where
  get_offices_call : Body → Call Body
  calculate_call : Body → Call Body

module _ {Body Json : Type 0} (service : Service Body Json) where
  unfoldable pub run_call : Call Body → Action (Calls Body) Json
  unfolding get_offices calculate
  run_call (get_offices_call params) = get_offices service params
  run_call (calculate_call body) = calculate service body

  -- A run of calls; what a call raises ends that call only.
  unfoldable pub run_calls : List (Call Body) → Calls Body → Calls Body
  unfolding run_call
  run_calls [] s = s
  run_calls (call ∷ calls) s = run_calls calls (run_call call s).1

  abbrev pub IsBearer : String → Type 0
  IsBearer header =
      (token : String) × (seconds : ℤ) × (n : ℕ) × Grants service n token seconds
      × (header ≡ bearer token)

  -- A call of the service carries a token that the service granted.
  abbrev pub IsAuthorized : Sent Body → Type 0
  IsAuthorized (oauth_token grant_type client_id client_secret) = Unit
  IsAuthorized (deliverypoints header params) = IsBearer header
  IsAuthorized (tarifflist header body) = IsBearer header

  -- What a call sends after it has a token.
  abbrev request_of : Call Body → String → Sent Body
  request_of (get_offices_call params) header = deliverypoints header params
  request_of (calculate_call body) header = tarifflist header body

  abbrev send : Sent Body → Calls Body → Calls Body
  send request s = record s { sent = s.sent ++ request ∷ [] }

  run_call_failed :
      (call : Call Body) (s : Calls Body)
      → (e : Exception) → (get_token service s).0 ≡ err e
      → (run_call call s).1 ≡ (get_token service s).1
  unfolding run_call get_offices calculate ◌>>=◌
  run_call_failed (get_offices_call params) s e h = rw h refl
  run_call_failed (calculate_call body) s e h = rw h refl

  run_call_sent :
      (call : Call Body) (s : Calls Body) (token : String)
      → (get_token service s).0 ≡ ok token
      → (run_call call s).1 ≡ send (request_of call (bearer token)) (get_token service s).1
  unfolding run_call get_offices calculate ◌>>=◌
  run_call_sent (get_offices_call params) s token h = rw h refl
  run_call_sent (calculate_call body) s token h = rw h refl

  IsAuthorized-request :
      (call : Call Body) (header : String) → IsBearer header → IsAuthorized (request_of call header)
  IsAuthorized-request (get_offices_call params) header h = h
  IsAuthorized-request (calculate_call body) header h = h

  IsAuthorized-found :
      (s s' : Calls Body) (token : String)
      → IsFound service s token s' ⊎ IsNew service s token s'
      → All IsAuthorized s.sent
      → IsBearer (bearer token) × All IsAuthorized s'.sent
  IsAuthorized-found s s' token (inl (seconds, n, reading, grant, b, r, t, after)) sent =
      ((token, seconds, n, grant, refl), rw after sent)
  IsAuthorized-found s s' token (inr (seconds, grant, held, asked, after)) sent = (
    (token, seconds, s.asked, grant, refl),
    rw after (All-append IsAuthorized s.sent _ sent (tt, tt)),
  )

  get_token-IsAuthorized :
      (s : Calls Body) → All IsAuthorized s.sent → All IsAuthorized (get_token service s).1.sent
  get_token-IsAuthorized s sent = elim (get_token-sent service s) [
    | inl same ↦ rw same sent
    | inr asked ↦ rw asked (All-append IsAuthorized s.sent _ sent (tt, tt))
  ]

  -- What every state between two calls satisfies.
  abbrev pub IsSound : Calls Body → Type 0
  IsSound s = IsKept service s × All IsAuthorized s.sent

  run_call-IsSound :
      IsComplete service
      → (call : Call Body) (s : Calls Body) → IsSound s
      → IsSound (run_call call s).1
  run_call-IsSound complete call s (kept, sent) = elim (Result-cases (get_token service s).0) [
    | inr (e, failed) ↦
        rw (run_call_failed call s e failed)
          (get_token-IsKept service complete s kept, get_token-IsAuthorized s sent)
    | inl (token, got) ↦
        (let s' = (get_token service s).1 in
          let (here, before) =
            IsAuthorized-found s s' token
              (get_token_fresh service complete s s' token kept (ground (arith, got))) sent in
          rw (run_call_sent call s token got) (
            IsKept-mono service s' (send (request_of call (bearer token)) s') refl (omega arith)
                (omega arith) (get_token-IsKept service complete s kept),
            All-append IsAuthorized s'.sent _ before
                (IsAuthorized-request call (bearer token) here, tt),
          ))
  ]

  run_calls-IsSound :
      IsComplete service
      → (calls : List (Call Body)) (s : Calls Body) → IsSound s
      → IsSound (run_calls calls s)
  unfolding run_calls
  run_calls-IsSound complete [] s sound = sound
  run_calls-IsSound complete (call ∷ calls) s sound =
      run_calls-IsSound complete calls (run_call call s).1 (run_call-IsSound complete call s sound)

  -- A client that was just made.
  abbrev pub started : String → String → Calls Body
  started client_id password = record {
    client = make_client client_id password;
    sent = [];
    asked = 0;
    readings = 0;
  }

  -- Whatever calls a new client is used for, each call of the service carries a token that the
  -- service granted, and the token that the client keeps was granted too, with a moment of expiry
  -- a hundred seconds before its time is over. It holds where a reply of success with a token says
  -- for how long it serves.
  pub run_calls-IsAuthorized :
      IsComplete service
      → (calls : List (Call Body)) (client_id password : String)
      → IsKept service (run_calls calls (started client_id password))
        × All IsAuthorized (run_calls calls (started client_id password)).sent
  unfolding make_client
  run_calls-IsAuthorized complete calls client_id password =
      run_calls-IsSound complete calls (started client_id password)
        ((λ moment e. absurd (ground arith)), tt)

  -- The clock has not reached the moment in its next readings, one for each call.
  abbrev pub Before : ℤ → ℕ → List (Call Body) → Type 0
  Before moment reading [] = Unit
  Before moment reading (call ∷ calls) =
      (ltb_ℤ (service.clock reading) moment ≡ true) × Before moment (suc reading) calls

  run_call_cached :
      (call : Call Body) (s : Calls Body) (token : String) (moment : ℤ)
      → s.client.token_expires ≡ some moment
      → s.client.token ≡ some token
      → ltb_ℤ (service.clock s.readings) moment ≡ true
      → (run_call call s).1 ≡ send (request_of call (bearer token)) (read_once service s)
  run_call_cached call s token moment expires held early =
      let closed = get_token_cached service s token moment expires held early in
      run_call_sent call s token (rw closed refl) ∙ rw closed refl

  -- While the clock stays before the moment at which the held token expires, a run of calls asks
  -- for no other token, and sends one request for each call, with the held token.
  pub run_calls_cached :
      (calls : List (Call Body)) (s : Calls Body) (token : String) (moment : ℤ)
      → s.client.token_expires ≡ some moment
      → s.client.token ≡ some token
      → Before moment s.readings calls
      → ((run_calls calls s).asked ≡ s.asked)
        × ((run_calls calls s).client ≡ s.client)
        × ((run_calls calls s).sent ≡ s.sent ++ map (λ call. request_of call (bearer token)) calls)
  unfolding run_calls
  run_calls_cached [] s token moment expires held before = (refl, refl, sym (append-nil s.sent))
  run_calls_cached (call ∷ calls) s token moment expires held (early, before) =
      let s' = send (request_of call (bearer token)) (read_once service s) in
      let (asked, client, sent) = run_calls_cached calls s' token moment expires held before in
      rw (run_calls, run_call_cached call s token moment expires held early)
        (asked, client, sent ∙ append_assoc s.sent (request_of call (bearer token) ∷ []) _)
