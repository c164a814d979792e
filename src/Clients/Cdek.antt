-- ===== src/Clients/Cdek.antt =====
-- `CdekClient` of src/integrations/cdek/client.py, with its cached token, and the handlers of
-- src/transport/handlers/client/cdek_widget/entrypoints.py, which make a client for each request.
pub mod Granted
pub mod Kept
pub mod Fresh
pub mod Runs
pub mod Handlers
use fast_api_example.Prelude.{
  ◌+ℤ◌, ◌-ℤ◌, ℤ, pos, ltb_ℤ, if◌then◌else◌, ℕ, suc, String, str_append, Bool, false, not, Option,
  none, some, List, [], ◌∷◌, ◌++◌,
}
use fast_api_example.Errors.{attribute_error, http_status_error}
use fast_api_example.App.{
  Action, Result, ok, pure, gets, lift, modify, or_raise, raise_if, ◌>>=◌, ◌>>◌,
}

-- `CdekClient`; `token` is missing until `_set_auth_token` assigns it.
pub record CdekClient : Type 0 where
  pub client_id : String
  pub password : String
  pub token : Option String
  pub token_expires : Option ℤ

-- What the client sends, in its own words: the parameters of `/oauth/token`, and the two calls of
-- the service with their `Authorization` header. `Body` is what they carry.
pub data Sent (Body : Type 0) : Type 0 where
  oauth_token : String → String → String → Sent Body
  deliverypoints : String → Body → Sent Body
  tarifflist : String → Body → Sent Body

-- A reply to `/oauth/token`: whether its status is one of success, and what its JSON object has
-- under the two keys, or what is raised on the way.
pub record TokenReply : Type 0 where
  pub is_success : Bool
  pub access_token : Result String
  pub expires_in : Result ℤ

-- The client, the requests that were sent, in order, the number of those for a token, and the
-- number of readings of the clock.
pub record Calls (Body : Type 0) : Type 0 where
  pub client : CdekClient
  pub sent : List (Sent Body)
  pub asked : ℕ
  pub readings : ℕ

-- The clock, in seconds, and the service: what the n-th request for a token ends with, and what a
-- call with this header and body ends with.
pub record Service (Body Json : Type 0) : Type 0 where
  pub clock : ℕ → ℤ
  pub post_oauth : ℕ → Result TokenReply
  pub get_deliverypoints : String → Body → Result Json
  pub post_tarifflist : String → Body → Result Json

-- `CdekClient.__init__`
unfoldable pub make_client : String → String → CdekClient
make_client client_id password = record {
  client_id = client_id;
  password = password;
  token = none;
  token_expires = none;
}

-- `f'Bearer {token}'`
unfoldable pub bearer : String → String
bearer token = str_append "Bearer " token

module _ {Body Json : Type 0} (service : Service Body Json) where
  -- `pendulum.now()`
  unfoldable pub now : Action (Calls Body) ℤ
  now s = (ok (service.clock s.readings), record s { readings = suc s.readings })

  -- `self.post(url='/oauth/token', params={...})`
  unfoldable pub post_oauth_token : Action (Calls Body) TokenReply
  post_oauth_token s = (
    service.post_oauth s.asked,
    record s {
      sent = s.sent ++ oauth_token "client_credentials" s.client.client_id s.client.password ∷ [];
      asked = suc s.asked;
    },
  )

  -- `self.token = token`
  unfoldable pub put_token : String → Calls Body → Calls Body
  put_token token s = record s { client = record s.client { token = some token } }

  -- `self.token_expires = moment`
  unfoldable pub put_expires : ℤ → Calls Body → Calls Body
  put_expires moment s = record s { client = record s.client { token_expires = some moment } }

  -- `_set_auth_token`
  unfoldable pub set_auth_token : Action (Calls Body) (Unit {0})
  unfolding now post_oauth_token put_token put_expires ◌>>=◌
  set_auth_token = do
    response ← post_oauth_token
    raise_if (not response.is_success) http_status_error
    token ← lift response.access_token
    modify (put_token token)
    moment ← now
    seconds ← lift response.expires_in
    modify (put_expires (moment +ℤ (seconds -ℤ pos 100)))

  -- `_is_token_valid`; the clock is not read where there is no token yet.
  unfoldable pub is_token_valid : Action (Calls Body) Bool
  unfolding now ◌>>=◌
  is_token_valid s = elim s.client.token_expires [
    | none ↦ (ok false, s)
    | some moment ↦ (do present ← now; pure (ltb_ℤ present moment)) s
  ]

  -- `self.token`
  unfoldable pub read_token : Action (Calls Body) String
  unfolding ◌>>=◌
  read_token = do token ← gets (λ s. s.client.token); or_raise token attribute_error

  -- `get_token`
  unfoldable pub get_token : Action (Calls Body) String
  unfolding set_auth_token is_token_valid read_token ◌>>=◌
  get_token = do
    is_valid ← is_token_valid
    if is_valid then read_token else set_auth_token >> read_token

  -- `get_offices`
  unfoldable pub get_offices : Body → Action (Calls Body) Json
  unfolding get_token bearer ◌>>=◌
  get_offices params = do
    token ← get_token
    modify (λ s. record s { sent = s.sent ++ deliverypoints (bearer token) params ∷ [] })
    lift (service.get_deliverypoints (bearer token) params)

  -- `calculate`
  unfoldable pub calculate : Body → Action (Calls Body) Json
  unfolding get_token bearer ◌>>=◌
  calculate body = do
    token ← get_token
    modify (λ s. record s { sent = s.sent ++ tarifflist (bearer token) body ∷ [] })
    lift (service.post_tarifflist (bearer token) body)
