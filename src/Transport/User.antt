-- ===== src/Transport/User.antt =====
-- The handlers of src/transport/handlers/client/user/entrypoints.py.
pub mod Limits
mod Tests
use fast_api_example.Prelude.{
  ℤ, pos, ◌==◌, if◌then◌else◌, Bool, Option, none, some, List, [], ◌∷◌, map,
}
use fast_api_example.Errors.{
  raise_class, attribute_error, key_error, validation_failed, catalog_item_not_found,
}
use fast_api_example.Database.{Uuid, Instant, Db}
use fast_api_example.App.{
  Env, World, Action, CartKey, text_key, uuid_key, Result, ok, err, pure, raise, gets, lift, modify,
  or_raise, get_by_id, ◌>>=◌, ◌>>◌,
}
use fast_api_example.Catalog.Models.{CatalogItemCheckoutDataDto, available}
use fast_api_example.User.{
  UserItems, add_item_to_cart, remove_items_from_cart, change_cart_item_quantity, get_user_items,
  add_favorite_item, remove_favorite_item,
}

-- The identifier that pydantic reads from a key of the session cart.
abbrev id_of_key : CartKey → Uuid
id_of_key (text_key id) = id
id_of_key (uuid_key id) = id

-- `get_user_items`: the session cart of a visitor, `{}` where there is none.
unfoldable pub get_user_items_handler : Action World UserItems
unfolding get_user_items ◌>>=◌
get_user_items_handler = do
  web ← gets (λ w. w.web)
  user ← gets (λ w. w.user)
  elim user [
    | some identity ↦ get_user_items identity.id
    | none ↦ pure (record {
      cart = elim web.cart [
        | none ↦ []
        | some cart ↦ map (λ entry. record { id = id_of_key entry.0; quantity = entry.1 }) cart
      ];
      favorites = [];
      tracked = [];
    })
  ]

-- `cart.update({str(item_id): 1})`
unfoldable pub put_text : Uuid → ℤ → List (CartKey × ℤ) → List (CartKey × ℤ)
put_text item_id quantity [] = (text_key item_id, quantity) ∷ []
put_text item_id quantity ((uuid_key id, q) ∷ cart) =
    (uuid_key id, q) ∷ put_text item_id quantity cart
put_text item_id quantity ((text_key id, q) ∷ cart) =
    let rest = put_text item_id quantity cart in
    if id == item_id then (text_key id, quantity) ∷ cart else (text_key id, q) ∷ rest

-- `cart.pop(item_id)`, where `item_id` is an identifier and not its text.
unfoldable pub pop : Uuid → List (CartKey × ℤ) → Option (List (CartKey × ℤ))
pop item_id [] = none
pop item_id ((text_key id, q) ∷ cart) = elim (pop item_id cart) [
  | none ↦ none
  | some rest ↦ some ((text_key id, q) ∷ rest)
]
pop item_id ((uuid_key id, q) ∷ cart) =
    let rest = pop item_id cart in
    if id == item_id
    then some cart
    else elim rest [ none ↦ none | some left ↦ some ((uuid_key id, q) ∷ left) ]

-- The loop of `remove_items_from_cart` over the session cart: `{}` where there is none, and what
-- was removed before a KeyError stays removed.
unfoldable pub pop_all : List Uuid → List (CartKey × ℤ) → Result (Unit {0}) × List (CartKey × ℤ)
unfolding pop
pop_all [] cart = (ok tt, cart)
pop_all (item_id ∷ item_ids) cart = elim (pop item_id cart) [
  | none ↦ (err key_error, cart)
  | some rest ↦ pop_all item_ids rest
]

unfoldable pub remove_from_session : List Uuid → Action World (Unit {0})
unfolding pop_all
remove_from_session item_ids w = elim w.web.cart [
  | none ↦ ((pop_all item_ids []).0, w)
  | some cart ↦
      (let (r, rest) = pop_all item_ids cart in
        (r, record w { web = record w.web { cart = some rest } }))
]

-- `remove_items_from_cart`
unfoldable pub remove_items_from_cart_handler : List Uuid → Action World (Unit {0})
unfolding remove_from_session ◌>>=◌
remove_items_from_cart_handler item_ids = do
  user ← gets (λ w. w.user)
  elim user [
    | none ↦ remove_from_session item_ids
    | some identity ↦ remove_items_from_cart identity.id item_ids
  ]

-- `add_item_to_cart`: `request.session.get('cart')` may be `None`.
unfoldable pub add_item_to_cart_handler : Env → Instant → Uuid → Action World (Unit {0})
unfolding put_text ◌>>=◌
add_item_to_cart_handler env filed_at item_id = do
  user ← gets (λ w. w.user)
  web ← gets (λ w. w.web)
  elim user [
    | some identity ↦ add_item_to_cart env filed_at identity.id item_id
    | none ↦ (elim web.cart [
      | none ↦ raise attribute_error
      | some cart ↦
          modify
            (λ w. record w { web = record w.web { cart = some (put_text item_id (pos 1) cart) } })
    ])
  ]

-- The repository's `get_catalog_item_quantity`. It gives `CatalogItemCheckoutDataDTO` the fields
-- `id`, `total` and `ordered` only; pydantic refuses an object without the fields `price`, `title`
-- and `credit_parts`, which have no default.
unfoldable pub get_catalog_item_quantity : Uuid → Db → Result CatalogItemCheckoutDataDto
get_catalog_item_quantity item_id db = elim (get_by_id (λ item. item.id) item_id db.catalog_items) [
  | none ↦ err (raise_class catalog_item_not_found)
  | some item ↦ err (validation_failed "price, title, credit_parts")
]

-- `change_cart_item_quantity`
unfoldable pub change_cart_item_quantity_handler : Uuid → Bool → Action World (Unit {0})
unfolding get_catalog_item_quantity available ◌>>=◌
change_cart_item_quantity_handler item_id is_increment_action = do
  db ← gets (λ w. w.db)
  catalog_item_quantity ← lift (get_catalog_item_quantity item_id db)
  web ← gets (λ w. w.web)
  change_cart_item_quantity item_id web.cart (available catalog_item_quantity) is_increment_action

-- `add_favorite` and `delete_favorite`: `USER_IDENTITY_CTX.get().id`.
unfoldable pub add_favorite : Env → Instant → Uuid → Action World (Unit {0})
unfolding add_favorite_item ◌>>=◌
add_favorite env filed_at item_id = do
  identity ← gets (λ w. w.user)
  user ← or_raise identity attribute_error
  add_favorite_item env filed_at item_id user.id

unfoldable pub delete_favorite : Uuid → Action World (Unit {0})
unfolding remove_favorite_item ◌>>=◌
delete_favorite item_id = do
  identity ← gets (λ w. w.user)
  user ← or_raise identity attribute_error
  remove_favorite_item item_id user.id
