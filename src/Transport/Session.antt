-- ===== src/Transport/Session.antt =====
-- The transaction of a request: `init_ctx_db_session` (src/transport/depends/db_session.py) and the
-- session of src/integrations/sql_alchemy/client.py.
pub mod Atomic
mod Tests
use fast_api_example.Prelude.{if◌then◌else◌, Bool, true, false, not, ◌&&◌, Option, none, some}
use fast_api_example.Errors.{Exception, is_expected}
use fast_api_example.Database.{Db}
use fast_api_example.App.{World, Action, Result, ok, err}

-- The tables as they are stored, and the state of the request, whose tables are what its database
-- session sees.
pub record Session : Type 0 where
  pub committed : Db
  pub world : World

-- `session.commit()`, where the database's answer to the tables that it is to store is an exception
-- or none.
unfoldable pub commit : Option Exception → Action Session (Unit {0})
commit none s = (ok tt, record s { committed = s.world.db })
commit (some e) s = (err e, s)

-- `session.rollback()`
unfoldable pub rollback : Session → Session
rollback s = record s { world = record s.world { db = s.committed } }

-- `close_ctx_session()`: the session is removed, with what it has not committed.
unfoldable pub close_ctx_session : Session → Session
unfolding rollback
close_ctx_session s = rollback s

-- A result after the action that follows it.
unfoldable pub after : {A : Type 0} → A → Result (Unit {0}) → Result A
after a (ok _) = ok a
after a (err e) = err e

-- `if request.method != 'GET'`: the commit, after a handler that returned.
unfoldable pub commit_or_raise :
    {A : Type 0} → (Db → Option Exception) → Bool → Result A → Action Session A
unfolding commit after
commit_or_raise commit_error is_get (err e) s = (err e, s)
commit_or_raise commit_error true (ok a) s = (ok a, s)
commit_or_raise commit_error false (ok a) s =
    let (r, s') = commit (commit_error s.world.db) s in (after a r, s')

-- The body of the `try`: the handler, and the commit of a request that is not a GET.
unfoldable pub handled :
    {A : Type 0} → (Db → Option Exception) → Bool → Action World A → Action Session A
unfolding commit_or_raise
handled commit_error is_get handler s =
    let (r, w) = handler s.world in commit_or_raise commit_error is_get r (record s { world = w })

-- The `except` clause, with its rollback, and the `finally` clause.
unfoldable pub ended : {A : Type 0} → Bool → Result A → Session → Result A × Session
unfolding close_ctx_session is_expected rollback
ended is_get (ok a) s = (ok a, close_ctx_session s)
ended is_get (err e) s =
    if not (is_expected e) && not is_get
    then (err e, close_ctx_session (rollback s))
    else (err e, close_ctx_session s)

-- `init_ctx_db_session`, around a handler.
unfoldable pub init_ctx_db_session :
    {A : Type 0} → (Db → Option Exception) → Bool → Action World A → Action Session A
unfolding handled ended
init_ctx_db_session commit_error is_get handler s =
    let (r, s') = handled commit_error is_get handler s in ended is_get r s'
