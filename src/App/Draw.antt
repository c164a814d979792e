-- ===== src/App/Draw.antt =====
-- The identifiers and the moments that a new row takes: `BaseORM` of src/database/models.py.
use fast_api_example.Prelude.{◌+◌, some}
use fast_api_example.Database.{Uuid, Instant, BaseOrm}
use fast_api_example.App.Monad.{Env, World, Action, ok, pure, ◌>>=◌}

-- The value that `uuid4` draws next.
unfoldable pub draw : Env → Action World Uuid
draw env w = (ok (env.uuid4 w.drawn), record w { drawn = w.drawn + 1 })

-- The columns of `BaseORM` of an object that is made now and filed at `filed_at`.
unfoldable pub new_base : Env → Instant → Action World BaseOrm
unfolding draw
new_base env filed_at = do
  id ← draw env
  pure (record { id = id; created_at = filed_at; updated_at = some filed_at })
