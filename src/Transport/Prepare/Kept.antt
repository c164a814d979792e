-- ===== src/Transport/Prepare/Kept.antt =====
-- What the handlers of src/transport/handlers/client/user leave of the cart of a browser's session.
use fast_api_example.Prelude.{ℤ, Option-cases, ◌≡◌, refl, inl, inr, Bool, none, some, List}
use fast_api_example.Database.{Uuid, Instant}
use fast_api_example.App.{keeping, Env, World, Action, CartKey, draw, new_base, Keeps, ◌>>=◌}
use fast_api_example.User.{
  add_item_to_cart, remove_items_from_cart, get_user_items, add_favorite_item, remove_favorite_item,
}
use fast_api_example.Transport.User.{
  get_user_items_handler, remove_items_from_cart_handler, remove_from_session,
  add_item_to_cart_handler, change_cart_item_quantity_handler, add_favorite, delete_favorite,
}
use fast_api_example.Transport.User.Limits.{change_cart_item_quantity_handler-refused}

-- The session has a cart.
abbrev pub HasCart : World → Type 0
HasCart w = (cart : List (CartKey × ℤ)) × (w.web.cart ≡ some cart)

abbrev pub KeepsCart : {A : Type 0} → Action World A → Type 0
KeepsCart = Keeps HasCart

module _ (env : Env) (filed_at : Instant) where
  pub new_base-KeepsCart : KeepsCart (new_base env filed_at)
  unfolding new_base draw ◌>>=◌
  new_base-KeepsCart w h = h

  add_item_to_cart-KeepsCart :
      (user_id item_id : Uuid) → KeepsCart (add_item_to_cart env filed_at user_id item_id)
  unfolding add_item_to_cart
  add_item_to_cart-KeepsCart user_id item_id = search (keeping, new_base-KeepsCart) depth 12

  add_favorite_item-KeepsCart :
      (item_id user_id : Uuid) → KeepsCart (add_favorite_item env filed_at item_id user_id)
  unfolding add_favorite_item
  add_favorite_item-KeepsCart item_id user_id = search (keeping, new_base-KeepsCart) depth 12

  pub add_favorite-KeepsCart : (item_id : Uuid) → KeepsCart (add_favorite env filed_at item_id)
  unfolding add_favorite
  add_favorite-KeepsCart item_id = search (keeping, add_favorite_item-KeepsCart) depth 12

  pub add_item_to_cart_handler-KeepsCart :
      (item_id : Uuid) → KeepsCart (add_item_to_cart_handler env filed_at item_id)
  unfolding add_item_to_cart_handler ◌>>=◌
  add_item_to_cart_handler-KeepsCart item_id w h = elim (Option-cases w.user) [
    | inl visitor ↦ rw (visitor, h.1) (_, refl)
    | inr (user, e) ↦
        rw e (add_item_to_cart-KeepsCart user.id item_id (record w { user = some user }) h)
  ]

remove_items_from_cart-KeepsCart :
    (user_id : Uuid) (item_ids : List Uuid) → KeepsCart (remove_items_from_cart user_id item_ids)
unfolding remove_items_from_cart
remove_items_from_cart-KeepsCart user_id item_ids = search (keeping)

remove_from_session-KeepsCart : (item_ids : List Uuid) → KeepsCart (remove_from_session item_ids)
unfolding remove_from_session
remove_from_session-KeepsCart item_ids w (cart, e) = rw e (_, refl)

pub remove_items_from_cart_handler-KeepsCart :
    (item_ids : List Uuid) → KeepsCart (remove_items_from_cart_handler item_ids)
unfolding remove_items_from_cart_handler ◌>>=◌
remove_items_from_cart_handler-KeepsCart item_ids w h = elim (Option-cases w.user) [
  | inl visitor ↦ rw visitor (remove_from_session-KeepsCart item_ids (record w { user = none }) h)
  | inr (user, e) ↦
      rw e (remove_items_from_cart-KeepsCart user.id item_ids (record w { user = some user }) h)
]

pub get_user_items_handler-KeepsCart : KeepsCart get_user_items_handler
unfolding get_user_items_handler get_user_items ◌>>=◌
get_user_items_handler-KeepsCart w h = elim (Option-cases w.user) [
  | inl visitor ↦ rw visitor h
  | inr (user, e) ↦ rw e h
]

pub delete_favorite-KeepsCart : (item_id : Uuid) → KeepsCart (delete_favorite item_id)
unfolding delete_favorite remove_favorite_item
delete_favorite-KeepsCart item_id = search (keeping) depth 12

pub change_cart_item_quantity_handler-KeepsCart :
    (item_id : Uuid) (is_increment : Bool)
    → KeepsCart (change_cart_item_quantity_handler item_id is_increment)
change_cart_item_quantity_handler-KeepsCart item_id is_increment w h =
    rw (change_cart_item_quantity_handler-refused item_id is_increment w).1 h
