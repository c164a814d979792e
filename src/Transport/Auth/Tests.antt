-- ===== src/Transport/Auth/Tests.antt =====
-- Instances of the theorems about the checks of src/transport/depends/auth.py.
use fast_api_example.Prelude.{◌≡◌, refl, true, false, none, some, [], ◌∷◌}
use fast_api_example.App.{World, UserIdentity, Result, ok, ◌>>=◌}
use fast_api_example.Database.{empty_db}
use fast_api_example.Transport.Auth.{KratosSession, WhoAmI, get_current_user}
use fast_api_example.Transport.Auth.Access.{IsIdentity, get_current_user-signed_in}

abbrev session : KratosSession
session = record {
  id = 9;
  schema_id = "admin";
  state = "active";
  email = "a@b.c";
  first_name = "A";
  last_name = "B";
  phone = "+7";
  addresses_verified = false ∷ true ∷ [];
  metadata_public = none;
}

abbrev boss : UserIdentity
boss = record {
  id = 9;
  schema_id = "admin";
  state = "active";
  email = "a@b.c";
  first_name = "A";
  last_name = "B";
  phone = "+7";
  verified = true;
  metadata_public = none;
}

abbrev before : World
before = record {
  db = empty_db;
  web = record { cart = none; checkout_data = none };
  user = none;
  drawn = 0;
  asked = [];
}

abbrev reply : WhoAmI
reply = record { is_success = true; json = some session }

abbrev seen : World
seen = record before { user = some boss; web = record { cart = some []; checkout_data = none } }

signed_in : get_current_user (λ u. ok u) true (ok reply) before ≡ (ok (some boss), seen)
unfolding get_current_user ◌>>=◌
signed_in = refl

get_current_user-signed_in_example :
    (true ≡ true)
    × ((response : WhoAmI) × (session' : KratosSession) × (◌≡◌ {A = Result WhoAmI}
          (ok reply)
          (ok response))
        × (response.is_success ≡ true)
        × (response.json ≡ some session')
        × ((identity : UserIdentity) × IsIdentity session' identity
            × (◌≡◌ {A = Result UserIdentity} (ok identity) (ok boss))))
    × (seen ≡ record before { user = some boss; web = record before.web { cart = some [] } })
get_current_user-signed_in_example =
    get_current_user-signed_in (λ u. ok u) true (ok reply) before seen boss signed_in
