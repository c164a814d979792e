-- ===== src/Transport/Session/Atomic.antt =====
-- What is stored after a request (src/transport/depends/db_session.py).
use fast_api_example.Prelude.{
  Bool-cases, ◌≡◌, refl, inl, inr, Bool, true, false, not, ◌&&◌, Option, none, some,
}
use fast_api_example.Errors.{Exception, is_expected}
use fast_api_example.Database.{Db}
use fast_api_example.App.{World, Action, Result, ok, err}
use fast_api_example.Transport.Session.{
  Session, commit, after, commit_or_raise, handled, ended, init_ctx_db_session,
}

ended-state :
    {A : Type 0} (is_get : Bool) (r : Result A) (s : Session)
    → ended is_get r s ≡ (r, record s { world = record s.world { db = s.committed } })
unfolding ended
ended-state is_get (ok a) s = refl
ended-state is_get (err e) s = elim (Bool-cases (not (is_expected e) && not is_get)) [
  | inl h ↦ rw h refl
  | inr h ↦ rw h refl
]

-- The answer and the tables after a commit.
abbrev pub stored : {A : Type 0} → Option Exception → A → Db → Db → Result A × Db
stored none a db committed = (ok a, db)
stored (some e) a db committed = (err e, committed)

-- The answer of a request and the tables that are stored after it.
abbrev pub all_or_nothing :
    {A : Type 0} → (Db → Option Exception) → Bool → Result A × World → Db → Result A × Db
all_or_nothing commit_error is_get (err e, w) committed = (err e, committed)
all_or_nothing commit_error true (ok a, w) committed = (ok a, committed)
all_or_nothing commit_error false (ok a, w) committed = stored (commit_error w.db) a w.db committed

stored_outcome :
    {A : Type 0} (x : Option Exception) (a : A) (w : World) (s : Session)
    → (let (r', s') = commit x (record s { world = w }) in ended false (after a r') s') ≡ (
        let (r', db) = stored x a w.db s.committed in
        (r', record { committed = db; world = record w { db = db } }))
unfolding commit after
stored_outcome none a w s = ended-state false (ok a) (record { committed = w.db; world = w })
stored_outcome (some e) a w s = ended-state false (err e) (record s { world = w })

handled_outcome :
    {A : Type 0} (commit_error : Db → Option Exception) (is_get : Bool) (r : Result A) (w : World)
    (s : Session)
    → (let (r', s') = commit_or_raise commit_error is_get r (record s { world = w }) in
        ended is_get r' s')
      ≡ (let (r', db) = all_or_nothing commit_error is_get (r, w) s.committed in
          (r', record { committed = db; world = record w { db = db } }))
unfolding commit_or_raise commit
handled_outcome commit_error is_get (err e) w s =
    ended-state is_get (err e) (record s { world = w })
handled_outcome commit_error true (ok a) w s = ended-state true (ok a) (record s { world = w })
handled_outcome commit_error false (ok a) w s = stored_outcome (commit_error w.db) a w s

-- A request is all or nothing: the handler's tables are stored if it is not a GET, the handler
-- returns, and the commit succeeds, and then its result is the answer; else the tables stay as
-- they were, and the answer of a GET, or the exception, is passed on, an expected one too. What
-- the session sees at the end is what is stored.
pub init_ctx_db_session-outcome :
    {A : Type 0} (commit_error : Db → Option Exception) (is_get : Bool) (handler : Action World A)
    (s : Session)
    → let (r, db) = all_or_nothing commit_error is_get (handler s.world) s.committed in
      init_ctx_db_session commit_error is_get handler s
      ≡ (r, record { committed = db; world = record (handler s.world).1 { db = db } })
unfolding init_ctx_db_session handled
init_ctx_db_session-outcome commit_error is_get handler s =
    handled_outcome commit_error is_get (handler s.world).0 (handler s.world).1 s
