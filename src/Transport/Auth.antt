-- ===== src/Transport/Auth.antt =====
-- Who a request comes from, and what it may do: src/transport/depends/auth.py and
-- src/integrations/ory_kratos.
pub mod Access
mod Tests
use fast_api_example.Prelude.{
  if◌then◌else◌, any, String, Bool, Option, none, some, List, [], str_eq,
}
use fast_api_example.Errors.{raise_class, unauthorized, unverified, forbidden}
use fast_api_example.Database.{Uuid}
use fast_api_example.App.{
  World, Action, UserIdentity, Result, ok, err, pure, lift, modify, ◌>>=◌, ◌>>◌,
}

-- The part of the session that the identity provider answers with which `get_current_user` reads.
pub record KratosSession : Type 0 where
  pub id : Uuid
  pub schema_id : String
  pub state : String
  pub email : String
  pub first_name : String
  pub last_name : String
  pub phone : String
  pub addresses_verified : List Bool
  pub metadata_public : Option String

-- The answer to a GET of `/sessions/whoami`: whether its status code is one of success, and its
-- JSON, where that is not empty.
pub record WhoAmI : Type 0 where
  pub is_success : Bool
  pub json : Option KratosSession

-- `OryKratosClient.get_session`
unfoldable pub get_session : WhoAmI → Option KratosSession
get_session response = if response.is_success then response.json else none

unfoldable pub identity_of : KratosSession → UserIdentity
identity_of session = record {
  id = session.id;
  schema_id = session.schema_id;
  state = session.state;
  email = session.email;
  first_name = session.first_name;
  last_name = session.last_name;
  phone = session.phone;
  verified = any (λ verified. verified) session.addresses_verified;
  metadata_public = session.metadata_public;
}

-- `get_current_user`. The cookie is there or not, `reply` is what the request to the provider ends
-- with, and `validated` is what pydantic makes of the identity.
unfoldable pub get_current_user :
    (UserIdentity → Result UserIdentity) → Bool → Result WhoAmI → Action World (Option UserIdentity)
unfolding get_session identity_of ◌>>=◌
get_current_user validated has_cookie reply =
    let signed_out : Action World (Option UserIdentity) =
      modify (λ w. record w { user = none }) >> pure none in
    if has_cookie
    then (do
      response ← lift reply
      elim (get_session response) [
        | none ↦ signed_out
        | some session ↦ (do
          user ← lift (validated (identity_of session))
          modify (λ w. record w { user = some user; web = record w.web { cart = some [] } })
          pure (some user))
      ])
    else signed_out

-- `check_customer_access`
unfoldable pub check_customer_access : Option UserIdentity → Result UserIdentity
check_customer_access none = err (raise_class unauthorized)
check_customer_access (some user) = if user.verified then ok user else err (raise_class unverified)

-- `check_admin_access`, after `check_customer_access`; `admin_schema` is a setting.
unfoldable pub check_admin_access : String → Option UserIdentity → Result UserIdentity
unfolding check_customer_access
check_admin_access admin_schema identity = elim (check_customer_access identity) [
  | err e ↦ err e
  | ok user ↦ (if str_eq user.schema_id admin_schema then ok user else err (raise_class forbidden))
]
