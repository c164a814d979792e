-- ===== src/Transport/Prepare/Carts.antt =====
-- The cart in the session that a browser holds:
-- src/transport/middlewares/prepare_session_middleware.py before the handlers of
-- src/transport/handlers/client.
use fast_api_example.Prelude.{
  ℤ, pos, ◌≡◌, refl, ap, ◌∙◌, ◌⊎◌, inl, inr, Bool, true, false, Option, none, some, List, [], arith,
}
use fast_api_example.Database.{Uuid, Db}
use fast_api_example.Errors.{Exception}
use fast_api_example.App.{Env, World, Action, WebSession, CartKey, modify, ok, ◌>>=◌}
use fast_api_example.Transport.Session.{
  Session, init_ctx_db_session, handled, commit_or_raise, commit, after, ended, close_ctx_session,
  rollback,
}
use fast_api_example.Transport.Auth.{get_current_user}
use fast_api_example.Transport.User.{put_text, add_item_to_cart_handler}
use fast_api_example.Transport.Prepare.{
  Context, Request, add_item, is_empty, prepare_session, is_get, handle, is_of_order_router, serve,
  answer, Seen, fresh, answered,
}
use fast_api_example.Transport.Prepare.Kept.{HasCart}
use fast_api_example.Transport.Prepare.Served.{serve-KeepsCart}

-- Neither the commit nor the rollback touches the browser's session.
init_ctx_db_session-web :
    {A : Type 0} (commit_error : Db → Option Exception) (is_get : Bool) (handler : Action World A)
    (s : Session)
    → (init_ctx_db_session commit_error is_get handler s).1.world.web ≡ (handler s.world).1.web
unfolding init_ctx_db_session handled commit_or_raise commit after ended close_ctx_session rollback
init_ctx_db_session-web commit_error is_get handler s = ground arith

init_ctx_db_session-stored :
    {A : Type 0} (commit_error : Db → Option Exception) (handler : Action World A) (s : Session)
    (a : A) (w : World)
    → handler s.world ≡ (ok a, w)
    → commit_error w.db ≡ none
    → init_ctx_db_session commit_error false handler s
      ≡ (ok a, record { committed = w.db; world = w })
unfolding init_ctx_db_session handled commit_or_raise commit after ended close_ctx_session rollback
init_ctx_db_session-stored commit_error handler s a w h e = rw (h, e) refl

-- The cart that the middleware finds or puts in.
abbrev pub IsPrepared : WebSession → List (CartKey × ℤ) → Type 0
IsPrepared web cart = (web.cart ≡ some cart) ⊎ (web.cart ≡ none) × (cart ≡ [])

-- A session with checkout data has a cart.
abbrev IsUsable : WebSession → Type 0
IsUsable web = (is_empty web ≡ true) ⊎ ((cart : List (CartKey × ℤ)) × (web.cart ≡ some cart))

is_empty-cart : (web : WebSession) → is_empty web ≡ true → web.cart ≡ none
unfolding is_empty
is_empty-cart web h = ground arith

is_empty-false :
    (web : WebSession) (cart : List (CartKey × ℤ)) → web.cart ≡ some cart → is_empty web ≡ false
unfolding is_empty
is_empty-false web cart h = ground arith

prepare_session-cart :
    (w : World)
    → IsUsable w.web
    → (cart : List (CartKey × ℤ)) × ((prepare_session w).1.web.cart ≡ some cart)
      × IsPrepared w.web cart
unfolding prepare_session modify
prepare_session-cart w (inl empty) = ([], rw empty refl, inr (is_empty-cart w.web empty, refl))
prepare_session-cart w (inr (cart, e)) = (cart, rw (is_empty-false w.web cart e) e, inl e)

prepare_session-db : (w : World) → (prepare_session w).1.db ≡ w.db
unfolding prepare_session modify
prepare_session-db w = ground arith

-- Whatever a request asks for, and however it ends, it leaves a cart in a session that it may find.
answer-HasCart :
    (env : Env) (commit_error : Db → Option Exception) (c : Context) (request : Request)
    (s : Session)
    → IsUsable s.world.web
    → HasCart (answer env commit_error c request s).1.world
unfolding answer
answer-HasCart env commit_error c request s h =
    let w = (prepare_session s.world).1 in
    let (cart, e, _) = prepare_session-cart s.world h in
    rw
      (init_ctx_db_session-web commit_error (is_get request) (serve env c request)
        (record s { world = w }))
      (serve-KeepsCart env c request w (cart, e))

Seen-IsUsable :
    (env : Env) (commit_error : Db → Option Exception) (web : WebSession)
    → Seen env commit_error web
    → IsUsable web
unfolding is_empty
Seen-IsUsable env commit_error web fresh = inl refl
Seen-IsUsable env commit_error web (answered s c request before) = inr (
    answer-HasCart env commit_error c request s (Seen-IsUsable env commit_error s.world.web before))

serve_add_item :
    (env : Env) (c : Context) (item_id : Uuid) (cart : List (CartKey × ℤ)) (w : World)
    → c.has_cookie ≡ false
    → w.web.cart ≡ some cart
    → serve env c (add_item item_id) w ≡ (
      ok tt,
      record w { user = none; web = record w.web { cart = some (put_text item_id (pos 1) cart) } },
    )
unfolding serve get_current_user handle is_of_order_router add_item_to_cart_handler ◌>>=◌
serve_add_item env c item_id cart w visitor e = rw (visitor, e) refl

-- Whatever requests a browser's session went through from an empty one on, with the tables changed
-- by anyone in between, a visitor who puts an item in the cart succeeds: it goes into the cart of
-- the session, which is empty where there was none. It holds where the database takes the commit.
pub add_item-session :
    (env : Env) (commit_error : Db → Option Exception) (c : Context) (item_id : Uuid) (s : Session)
    → Seen env commit_error s.world.web
    → c.has_cookie ≡ false
    → commit_error s.world.db ≡ none
    → (cart : List (CartKey × ℤ)) × IsPrepared s.world.web cart
      × ((answer env commit_error c (add_item item_id) s).0 ≡ ok tt)
      × ((answer env commit_error c (add_item item_id) s).1.world.web.cart
          ≡ some (put_text item_id (pos 1) cart))
unfolding answer is_get
add_item-session env commit_error c item_id s seen visitor stored =
    let (cart, e, prepared) =
      prepare_session-cart s.world (Seen-IsUsable env commit_error s.world.web seen) in
    let w = (prepare_session s.world).1 in
    let closed =
      init_ctx_db_session-stored commit_error (serve env c (add_item item_id))
        (record s { world = w }) tt _ (serve_add_item env c item_id cart w visitor e)
        (ap commit_error (prepare_session-db s.world) ∙ stored) in
    (cart, prepared, ap (λ r. r.0) closed, ap (λ r. r.1.world.web.cart) closed)
