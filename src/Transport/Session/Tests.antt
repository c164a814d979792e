-- ===== src/Transport/Session/Tests.antt =====
-- An instance of the theorem about the transaction of a request.
use fast_api_example.Prelude.{ℕ, ◌≡◌, false, none, [], ◌∷◌}
use fast_api_example.Errors.{raise_class, forbidden}
use fast_api_example.Database.{empty_db}
use fast_api_example.App.{World, Action, err}
use fast_api_example.Transport.Session.{Session, init_ctx_db_session}
use fast_api_example.Transport.Session.Atomic.{all_or_nothing, init_ctx_db_session-outcome}

abbrev start : Session
start = record {
  committed = empty_db;
  world = record {
    db = empty_db;
    web = record { cart = none; checkout_data = none };
    user = none;
    drawn = 0;
    asked = [];
  };
}

-- A handler that changes a table and then raises an expected error.
abbrev handler : Action World ℕ
handler w = (
  err (raise_class forbidden),
  record w {
    db = record w.db {
      favorites =
          record {
            base = record { id = 1; created_at = 0; updated_at = none };
            user_id = 2;
            catalog_item_id = 3;
          }
          ∷ [];
    };
  },
)

init_ctx_db_session-outcome_example :
    let (r, db) = all_or_nothing (λ db. none) false (handler start.world) start.committed in
    init_ctx_db_session (λ db. none) false handler start
    ≡ (r, record { committed = db; world = record (handler start.world).1 { db = db } })
init_ctx_db_session-outcome_example = init_ctx_db_session-outcome (λ db. none) false handler start
