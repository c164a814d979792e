-- ===== src/Clients/Cdek/Handlers.antt =====
-- The handlers of src/transport/handlers/client/cdek_widget/entrypoints.py, and
-- `get_cdek_client` of src/transport/depends/clients.py.
use fast_api_example.Prelude.{length, suc, ◌+◌, String, ◌≡◌, refl, List, [], ◌∷◌, arith}
use fast_api_example.App.{Action, Result, ok, lift, modify, ◌>>=◌, ◌>>◌}
use fast_api_example.Clients.Cdek.{
  Calls, Service, make_client, get_offices, calculate, set_auth_token, read_token,
}
use fast_api_example.Clients.Cdek.Kept.{get_token_first}

-- The settings of the client: its identifier and its password.
pub record CdekSettings : Type 0 where
  pub client_id : String
  pub password : String

module _ {Body Json : Type 0} (service : Service Body Json) (settings : CdekSettings) where
  -- `get_cdek_client`: a new client for each request.
  unfoldable pub get_cdek_client : Calls Body → Calls Body
  unfolding make_client
  get_cdek_client s = record s { client = make_client settings.client_id settings.password }

  -- `get_cdek_offices`; `log` is what `logger.data(...)` ends with, and `params` the parameters of
  -- the request.
  unfoldable pub get_cdek_offices : Result (Unit {0}) → Body → Action (Calls Body) Json
  unfolding get_cdek_client get_offices ◌>>=◌
  get_cdek_offices log params = do modify get_cdek_client; lift log; get_offices service params

  -- `make_calculate`; `body` is what `request.json()` ends with.
  unfoldable pub make_calculate : Result Body → Action (Calls Body) Json
  unfolding get_cdek_client calculate ◌>>=◌
  make_calculate body = do modify get_cdek_client; content ← lift body; calculate service content

  -- The requests for a calculation, one after another.
  pub make_calculations : List Body → Calls Body → Calls Body
  unfolding make_calculate
  make_calculations [] s = s
  make_calculations (body ∷ bodies) s = make_calculations bodies (make_calculate (ok body) s).1

  set_then_read-asked :
      (s : Calls Body)
      → ((set_auth_token service >>= λ _. read_token service) s).1.asked ≡ suc s.asked
  unfolding set_auth_token read_token ◌>>=◌
  set_then_read-asked s = ground arith

  make_calculate-asked :
      (body : Body) (s : Calls Body) → (make_calculate (ok body) s).1.asked ≡ suc s.asked
  unfolding make_calculate ◌>>=◌ get_cdek_client calculate
  make_calculate-asked body s = ground (
    arith,
    get_token_first service (get_cdek_client s) refl,
    set_then_read-asked (get_cdek_client s),
  )

  -- Every request for a calculation asks for a token of its own, however long the last one serves:
  -- the client that keeps the token is made anew for each request.
  pub make_calculations-asked :
      (bodies : List Body) (s : Calls Body)
      → (make_calculations bodies s).asked ≡ s.asked + length bodies
  unfolding make_calculations
  make_calculations-asked [] s = omega arith
  make_calculations-asked (body ∷ bodies) s = omega (
    arith,
    make_calculate-asked body s,
    make_calculations-asked bodies (make_calculate (ok body) s).1,
  )
