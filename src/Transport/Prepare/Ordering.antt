-- ===== src/Transport/Prepare/Ordering.antt =====
-- What the handlers of src/transport/handlers/client/order leave of the cart of a browser's
-- session.
use fast_api_example.Prelude.{Option-cases, inl, inr, Option, none, some, List, [], ◌∷◌}
use fast_api_example.Database.{Uuid, Instant, OrderOrm, DeliveryOrm}
use fast_api_example.App.{keeping, Env, NewInvoice, UserIdentity, pure, raise, draw}
use fast_api_example.Catalog.Models.{AvailableCheckoutItem, ShortCheckoutItem, CatalogItemQuantity}
use fast_api_example.Catalog.Checkout.{verify_checkout_data, reserve_catalog_items}
use fast_api_example.User.{update_cart_items}
use fast_api_example.Order.Models.{Delivery}
use fast_api_example.Order.Create.{create_order}
use fast_api_example.Order.Filing.{
  NewOrderItem, new_delivery, new_order_item, new_order_items, file_order,
}
use fast_api_example.Order.Read.{Reading, get_user_order}
use fast_api_example.Order.Invoices.{OrderInvoices}
use fast_api_example.Tinkoff.{InitPaymentRequest}
use fast_api_example.Tinkoff.Client.{init_payment}
use fast_api_example.Transport.Order.{
  keep_or_adjust, read_checkout_data, make_checkout, get_checkout_data, make_order_entrypoint,
  get_order_entrypoint,
}
use fast_api_example.Transport.Prepare.Kept.{KeepsCart, new_base-KeepsCart}

keep_or_adjust-KeepsCart :
    (available : List AvailableCheckoutItem) (adjusted : List ShortCheckoutItem)
    → KeepsCart (keep_or_adjust available adjusted)
unfolding keep_or_adjust update_cart_items
keep_or_adjust-KeepsCart available [] = search (keeping)
keep_or_adjust-KeepsCart available (item ∷ items) = search (keeping) depth 12

verify_checkout_data-KeepsCart :
    (env : Env) (items : List CatalogItemQuantity) → KeepsCart (verify_checkout_data env items)
unfolding verify_checkout_data
verify_checkout_data-KeepsCart env items = search (keeping) depth 12

pub make_checkout-KeepsCart :
    (env : Env) (items : List CatalogItemQuantity) → KeepsCart (make_checkout env items)
unfolding make_checkout
make_checkout-KeepsCart env items =
    search (keeping, verify_checkout_data-KeepsCart, keep_or_adjust-KeepsCart) depth 12

read_checkout_data-KeepsCart : KeepsCart read_checkout_data
unfolding read_checkout_data pure raise
read_checkout_data-KeepsCart w h = elim (Option-cases w.web.checkout_data) [
  | inl e ↦ rw e h
  | inr ([], e) ↦ rw e h
  | inr (item ∷ items, e) ↦ rw e h
]

pub get_checkout_data-KeepsCart : KeepsCart get_checkout_data
unfolding get_checkout_data
get_checkout_data-KeepsCart = search (keeping, read_checkout_data-KeepsCart)

reserve_catalog_items-KeepsCart :
    (items : List ShortCheckoutItem) → KeepsCart (reserve_catalog_items items)
unfolding reserve_catalog_items
reserve_catalog_items-KeepsCart items = search (keeping) depth 12

module _ (env : Env) (filed_at : Instant) where
  new_delivery-KeepsCart :
      (delivery : Option Delivery) → KeepsCart (new_delivery env filed_at delivery)
  unfolding new_delivery
  new_delivery-KeepsCart none = search (keeping)
  new_delivery-KeepsCart (some delivery) = search (keeping, new_base-KeepsCart) depth 12

  new_order_item-KeepsCart :
      (invoices : OrderInvoices) (credit_ids : List Uuid) (item : AvailableCheckoutItem)
      → KeepsCart (new_order_item env filed_at invoices credit_ids item)
  unfolding new_order_item
  new_order_item-KeepsCart invoices credit_ids item = search (keeping, new_base-KeepsCart) depth 12

  new_order_items-KeepsCart :
      (invoices : OrderInvoices) (credit_ids : List Uuid) (items : List AvailableCheckoutItem)
      → KeepsCart (new_order_items env filed_at invoices credit_ids items)
  unfolding new_order_items
  new_order_items-KeepsCart invoices credit_ids [] = search (keeping)
  new_order_items-KeepsCart invoices credit_ids (item ∷ items) =
      search
        (keeping, new_order_item-KeepsCart, new_order_items-KeepsCart invoices credit_ids items)
        depth 12

  file_order-KeepsCart :
      (order : OrderOrm) (delivery : Option DeliveryOrm) (items : List NewOrderItem)
      (invoices : List NewInvoice)
      → KeepsCart (file_order filed_at order delivery items invoices)
  unfolding file_order
  file_order-KeepsCart order delivery items invoices = search (keeping) depth 12

  init_payment-KeepsCart : (request : InitPaymentRequest) → KeepsCart (init_payment env request)
  unfolding init_payment
  init_payment-KeepsCart request = search (keeping) depth 12

  draw-KeepsCart : KeepsCart (draw env)
  unfolding draw
  draw-KeepsCart w h = h

  create_order-KeepsCart :
      (now : Instant) (identity : Option UserIdentity) (credit_ids : List Uuid)
      (delivery : Option Delivery) (items : List AvailableCheckoutItem)
      → KeepsCart (create_order env filed_at now identity credit_ids delivery items)
  unfolding create_order
  create_order-KeepsCart now identity credit_ids delivery items =
      search
        (
          keeping, new_delivery-KeepsCart, new_order_items-KeepsCart, new_base-KeepsCart,
          file_order-KeepsCart, init_payment-KeepsCart, draw-KeepsCart,
        )
        depth 40

  pub make_order_entrypoint-KeepsCart :
      (now : Instant) (credit_ids : List Uuid) (delivery : Option Delivery)
      → KeepsCart (make_order_entrypoint env filed_at now credit_ids delivery)
  unfolding make_order_entrypoint
  make_order_entrypoint-KeepsCart now credit_ids delivery =
      search
        (
          keeping, read_checkout_data-KeepsCart, reserve_catalog_items-KeepsCart,
          create_order-KeepsCart,
        )
        depth 40

pub get_order_entrypoint-KeepsCart :
    (reading : Reading) (order_id : Uuid) → KeepsCart (get_order_entrypoint reading order_id)
unfolding get_order_entrypoint get_user_order
get_order_entrypoint-KeepsCart reading order_id = search (keeping) depth 40
