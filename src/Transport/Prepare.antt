-- ===== src/Transport/Prepare.antt =====
-- The session that a browser holds: `PrepareSessionMiddleware` of
-- src/transport/middlewares/prepare_session_middleware.py, and the requests that it stands before,
-- after `get_current_user`. The empty 'favorites' that it puts in too is read nowhere.
pub mod Kept
pub mod Ordering
pub mod Served
pub mod Carts
mod Tests
use fast_api_example.Prelude.{if◌then◌else◌, Bool, true, false, Option, none, some, List, []}
use fast_api_example.Database.{Uuid, Instant, Db}
use fast_api_example.App.{
  Env, World, Action, WebSession, UserIdentity, Result, ok, and_then, lift, pure, modify, ◌>>=◌,
  ◌>>◌,
}
use fast_api_example.Catalog.Models.{CatalogItemQuantity}
use fast_api_example.Order.Models.{Delivery}
use fast_api_example.Order.Read.{Reading}
use fast_api_example.Transport.Auth.{WhoAmI, get_current_user, check_customer_access}
use fast_api_example.Transport.Session.{Session, init_ctx_db_session}
use fast_api_example.Errors.{Exception}
use fast_api_example.Transport.User.{
  get_user_items_handler, remove_items_from_cart_handler, add_item_to_cart_handler,
  change_cart_item_quantity_handler, add_favorite, delete_favorite,
}
use fast_api_example.Transport.Order.{
  make_checkout, get_checkout_data, make_order_entrypoint, get_order_entrypoint,
}

-- `not request.session`
unfoldable pub is_empty : WebSession → Bool
is_empty web = elim web.cart [
  | some cart ↦ false
  | none ↦ (elim web.checkout_data [ none ↦ true | some items ↦ false ])
]

-- `PrepareSessionMiddleware.dispatch`, up to `call_next`.
unfoldable pub prepare_session : Action World (Unit {0})
unfolding is_empty
prepare_session =
    modify (λ w. if is_empty w.web then record w { web = record w.web { cart = some [] } } else w)

-- The requests of `user_router` and of `order_router`, with their bodies and parameters.
pub data Request : Type 0 where
  get_items : Request
  remove_items : List Uuid → Request
  add_item : Uuid → Request
  change_quantity : Uuid → Bool → Request
  favorite : Uuid → Request
  no_favorite : Uuid → Request
  checkout : List CatalogItemQuantity → Request
  checkout_data : Request
  make_order : List Uuid → Option Delivery → Request
  read_order : Uuid → Request

-- What a request comes with that the program reads elsewhere: the moment at which its rows are
-- filed, the time, and what is said of its user.
pub record Context : Type 0 where
  pub filed_at : Instant
  pub now : Instant
  pub reading : Reading
  pub has_cookie : Bool
  pub whoami : Result WhoAmI
  pub validated : UserIdentity → Result UserIdentity

-- The handler of a request.
unfoldable pub handle : Env → Context → Request → Action World (Unit {0})
unfolding ◌>>=◌
handle env c get_items = get_user_items_handler >> pure tt
handle env c (remove_items item_ids) = remove_items_from_cart_handler item_ids
handle env c (add_item item_id) = add_item_to_cart_handler env c.filed_at item_id
handle env c (change_quantity item_id is_increment_action) =
    change_cart_item_quantity_handler item_id is_increment_action
handle env c (favorite item_id) = add_favorite env c.filed_at item_id
handle env c (no_favorite item_id) = delete_favorite item_id
handle env c (checkout items) = make_checkout env items
handle env c checkout_data = get_checkout_data >> pure tt
handle env c (make_order credit_ids delivery_data) =
    make_order_entrypoint env c.filed_at c.now credit_ids delivery_data >> pure tt
handle env c (read_order order_id) = get_order_entrypoint c.reading order_id >> pure tt

-- The routes of `order_router`, and those whose method is GET.
unfoldable pub is_of_order_router : Request → Bool
is_of_order_router (checkout items) = true
is_of_order_router checkout_data = true
is_of_order_router (make_order credit_ids delivery_data) = true
is_of_order_router (read_order order_id) = true
is_of_order_router _ = false

unfoldable pub is_get : Request → Bool
is_get get_items = true
is_get checkout_data = true
is_get (read_order order_id) = true
is_get _ = false

-- The dependencies of a route after its database session, and its handler.
unfoldable pub serve : Env → Context → Request → Action World (Unit {0})
unfolding handle is_of_order_router check_customer_access ◌>>=◌
serve env c request = do
  user ← get_current_user c.validated c.has_cookie c.whoami
  lift (
      if is_of_order_router request
      then and_then (check_customer_access user) (λ _. ok tt)
      else ok tt)
  handle env c request

-- A request from the middleware on: the session of the browser, the transaction, and the handler.
unfoldable pub answer :
    Env → (Db → Option Exception) → Context → Request → Action Session (Unit {0})
unfolding prepare_session serve is_get init_ctx_db_session
answer env commit_error c request s =
    init_ctx_db_session commit_error (is_get request) (serve env c request)
      (record s { world = (prepare_session s.world).1 })

-- The sessions that a browser can hold: an empty one, and the ones that a request with such a
-- session leaves, whatever the tables hold by then.
pub data Seen (env : Env) (commit_error : Db → Option Exception) : WebSession → Type 0 where
  fresh : Seen env commit_error (record { cart = none; checkout_data = none })
  answered :
      (s : Session) (c : Context) (request : Request)
      → Seen env commit_error s.world.web
      → Seen env commit_error (answer env commit_error c request s).1.world.web
