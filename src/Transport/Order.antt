-- ===== src/Transport/Order.antt =====
-- The handlers of src/transport/handlers/client/order/entrypoints.py, after
-- `check_customer_access`, and those of src/transport/handlers/internal/notifications.
pub mod Making
pub mod Checkout
mod Tests
use fast_api_example.Prelude.{
  if◌then◌else◌, any, String, Bool, true, false, not, ◌&&◌, Option, none, some, List, [], ◌∷◌, map,
}
use fast_api_example.Errors.{
  raise_class, attribute_error, invalid_checkout_data, checkout_data_is_empty,
}
use fast_api_example.Database.{Uuid, Instant}
use fast_api_example.App.{
  Env, World, Action, pure, raise, gets, modify, or_raise, raise_if, ◌>>=◌, ◌>>◌,
}
use fast_api_example.Catalog.Models.{CatalogItemQuantity, ShortCheckoutItem, AvailableCheckoutItem}
use fast_api_example.Catalog.Checkout.{verify_checkout_data, reserve_catalog_items}
use fast_api_example.Order.Read.{Reading, get_user_order}
use fast_api_example.Order.Models.{Order, Delivery}
use fast_api_example.Order.Create.{create_order}
use fast_api_example.User.{update_cart_items, remove_items_from_cart}

-- What `make_checkout` does with the available and the adjusted items.
unfoldable pub keep_or_adjust :
    List AvailableCheckoutItem → List ShortCheckoutItem → Action World (Unit {0})
unfolding update_cart_items ◌>>=◌
keep_or_adjust available_items [] =
    modify (λ w. record w { web = record w.web { checkout_data = some available_items } })
keep_or_adjust available_items (item ∷ items) = do
  identity ← gets (λ w. w.user)
  user ← or_raise identity attribute_error
  update_cart_items user.id (item ∷ items)
  raise (raise_class invalid_checkout_data)

-- `make_checkout`
unfoldable pub make_checkout : Env → List CatalogItemQuantity → Action World (Unit {0})
unfolding keep_or_adjust ◌>>=◌
make_checkout env items = do
  checked ← verify_checkout_data env items
  keep_or_adjust checked.available_items checked.adjusted_items

-- `request.session.get('checkout_data', [])`, where an empty list is an error.
unfoldable pub read_checkout_data : Action World (List AvailableCheckoutItem)
unfolding pure raise
read_checkout_data w = elim w.web.checkout_data [
  | none ↦ raise (raise_class checkout_data_is_empty) w
  | some items ↦ (elim items [
    | [] ↦ raise (raise_class checkout_data_is_empty) w
    | item ∷ rest ↦ pure (item ∷ rest) w
  ])
]

-- `get_checkout_data`: the answer has the fields of `ShortCheckoutItem`.
unfoldable pub get_checkout_data : Action World (List ShortCheckoutItem)
unfolding read_checkout_data ◌>>=◌
get_checkout_data = do items ← read_checkout_data; pure (map (λ item. item.short) items)

-- `any(item.preorder_id for item in checkout_items)`
unfoldable pub is_preorder : List AvailableCheckoutItem → Bool
is_preorder = any (λ item. elim item.preorder_id [ none ↦ false | some id ↦ true ])

abbrev is_none : Option Delivery → Bool
is_none none = true
is_none (some delivery) = false

-- `make_order_entrypoint`. The test of the delivery reads an attribute of `delivery_data`, which
-- raises where it is `None`; else the object `delivery_data.recipient` is true, and the test
-- fails.
unfoldable pub make_order_entrypoint :
    Env → Instant → Instant → List Uuid → Option Delivery → Action World String
unfolding read_checkout_data is_preorder remove_items_from_cart
make_order_entrypoint env filed_at now credit_ids delivery_data = do
  checkout_items ← read_checkout_data
  raise_if (not (is_preorder checkout_items) && is_none delivery_data) attribute_error
  reserve_catalog_items (map (λ item. item.short) checkout_items)
  identity ← gets (λ w. w.user)
  payment_link ←
      create_order env filed_at now identity credit_ids
        (if is_preorder checkout_items then none else delivery_data) checkout_items
  user ← or_raise identity attribute_error
  remove_items_from_cart user.id (map (λ item. item.id) checkout_items)
  pure payment_link

-- `get_order_entrypoint`: `USER_IDENTITY_CTX.get().id`.
unfoldable pub get_order_entrypoint : Reading → Uuid → Action World Order
unfolding ◌>>=◌
get_order_entrypoint reading order_id = do
  identity ← gets (λ w. w.user)
  user ← or_raise identity attribute_error
  get_user_order reading order_id user.id
