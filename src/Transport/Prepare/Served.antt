-- ===== src/Transport/Prepare/Served.antt =====
-- What a request of src/transport/handlers/client leaves of the cart of a browser's session, after
-- `get_current_user`.
use fast_api_example.Prelude.{Bool-cases, Option-cases, refl, inl, inr, Bool, true, false, []}
use fast_api_example.App.{keeping, Env, UserIdentity, Result, Result-cases, ok, err, ◌>>=◌}
use fast_api_example.Transport.Auth.{WhoAmI, identity_of, get_current_user}
use fast_api_example.Transport.Prepare.{
  Context, Request, get_items, remove_items, add_item, change_quantity, favorite, no_favorite,
  checkout, checkout_data, make_order, read_order, handle, serve,
}
use fast_api_example.Transport.Prepare.Kept.{
  KeepsCart, add_favorite-KeepsCart, add_item_to_cart_handler-KeepsCart,
  remove_items_from_cart_handler-KeepsCart, get_user_items_handler-KeepsCart,
  delete_favorite-KeepsCart, change_cart_item_quantity_handler-KeepsCart,
}
use fast_api_example.Transport.Prepare.Ordering.{
  make_checkout-KeepsCart, get_checkout_data-KeepsCart, make_order_entrypoint-KeepsCart,
  get_order_entrypoint-KeepsCart,
}

get_current_user-KeepsCart :
    (validated : UserIdentity → Result UserIdentity) (has_cookie : Bool) (reply : Result WhoAmI)
    → KeepsCart (get_current_user validated has_cookie reply)
unfolding get_current_user ◌>>=◌
get_current_user-KeepsCart validated false reply w h = h
get_current_user-KeepsCart validated true (err e) w h = h
get_current_user-KeepsCart validated true (ok response) w h =
    elim (Bool-cases response.is_success) [
      | inr fails ↦ rw fails h
      | inl holds ↦ (elim (Option-cases response.json) [
        | inl nobody ↦ rw (holds, nobody) h
        | inr (session, found) ↦ (elim (Result-cases (validated (identity_of session))) [
          | inl (user, valid) ↦ rw (holds, found, valid) ([], refl)
          | inr (e, invalid) ↦ rw (holds, found, invalid) h
        ])
      ])
    ]

handle-KeepsCart : (env : Env) (c : Context) (request : Request) → KeepsCart (handle env c request)
unfolding handle
handle-KeepsCart env c get_items = search (keeping, get_user_items_handler-KeepsCart)
handle-KeepsCart env c (remove_items item_ids) = remove_items_from_cart_handler-KeepsCart item_ids
handle-KeepsCart env c (add_item item_id) =
    add_item_to_cart_handler-KeepsCart env c.filed_at item_id
handle-KeepsCart env c (change_quantity item_id is_increment) =
    change_cart_item_quantity_handler-KeepsCart item_id is_increment
handle-KeepsCart env c (favorite item_id) = add_favorite-KeepsCart env c.filed_at item_id
handle-KeepsCart env c (no_favorite item_id) = delete_favorite-KeepsCart item_id
handle-KeepsCart env c (checkout items) = make_checkout-KeepsCart env items
handle-KeepsCart env c checkout_data = search (keeping, get_checkout_data-KeepsCart)
handle-KeepsCart env c (make_order credit_ids delivery_data) =
    search (keeping, make_order_entrypoint-KeepsCart)
handle-KeepsCart env c (read_order order_id) = search (keeping, get_order_entrypoint-KeepsCart)

pub serve-KeepsCart :
    (env : Env) (c : Context) (request : Request) → KeepsCart (serve env c request)
unfolding serve
serve-KeepsCart env c request =
    search (keeping, get_current_user-KeepsCart, handle-KeepsCart) depth 12
