-- ===== src/Order/Filing.antt =====
-- The table objects that `create_order` of src/services/order/service.py makes, and what its
-- repository files of them.
use fast_api_example.Prelude.{
  ℤ, ◌==◌, if◌then◌else◌, all, any, contains, Bool, not, Option, none, some, List, [], ◌∷◌, ◌++◌,
  map,
}
use fast_api_example.Errors.{attribute_error, integrity_error}
use fast_api_example.Database.{
  Uuid, Instant, BaseOrm, OrderOrm, OrderItemOrm, InvoiceOrm, DeliveryOrm,
}
use fast_api_example.App.{
  new_base, Env, World, Action, NewInvoice, Assigned, a_list, a_none, pure, lift, modify, or_raise,
  raise_if, ◌>>=◌, ◌>>◌,
}
use fast_api_example.Catalog.Models.{AvailableCheckoutItem}
use fast_api_example.Order.Constants.{service_value}
use fast_api_example.Order.Models.{Delivery}
use fast_api_example.Order.Invoices.{OrderInvoices, get}

unfoldable pub new_delivery : Env → Instant → Option Delivery → Action World (Option DeliveryOrm)
unfolding new_base service_value
new_delivery env filed_at none = pure none
new_delivery env filed_at (some delivery) = do
  point ← or_raise delivery.point attribute_error
  base ← new_base env filed_at
  pure (
      some (record {
        base = base;
        service = service_value delivery.service;
        address = point.address;
        address_identifier = some point.code;
        recipient_name = some delivery.recipient.full_name;
        recipient_phone = some delivery.recipient.phone;
        track_code = none;
      }))

-- An `OrderItemORM` that is in no session yet, with what its relationship `invoices` holds.
pub record NewOrderItem : Type 0 where
  pub base : BaseOrm
  pub open base use *
  pub item_id : Uuid
  pub quantity : ℤ
  pub price : ℤ
  pub by_credit : Bool
  pub invoices : List NewInvoice

-- `invoices.get(str(item.id), None)`, as it is assigned
assigned_to : Option (List NewInvoice) → Assigned
assigned_to none = a_none
assigned_to (some invoices) = a_list invoices

unfoldable pub new_order_item :
    Env → Instant → OrderInvoices → List Uuid → AvailableCheckoutItem → Action World NewOrderItem
unfolding new_base assigned_to get
new_order_item env filed_at invoices credit_items_ids item = do
  base ← new_base env filed_at
  held ← lift (env.assign (assigned_to (get item.id invoices.credit_invoices)))
  pure (record {
    base = base;
    item_id = item.id;
    quantity = item.quantity;
    price = item.price;
    by_credit = contains item.id credit_items_ids;
    invoices = held;
  })

unfoldable pub new_order_items :
    Env
    → Instant
    → OrderInvoices
    → List Uuid
    → List AvailableCheckoutItem
    → Action World (List NewOrderItem)
new_order_items env filed_at invoices credit_items_ids [] = pure []
new_order_items env filed_at invoices credit_items_ids (item ∷ items) = do
  made ← new_order_item env filed_at invoices credit_items_ids item
  rest ← new_order_items env filed_at invoices credit_items_ids items
  pure (made ∷ rest)

-- The order item whose relationship holds the invoice.
item_of : List NewOrderItem → NewInvoice → Option Uuid
item_of [] invoice = none
item_of (item ∷ items) invoice =
    if any (λ held. held.id == invoice.id) item.invoices
    then some item.id
    else item_of items invoice

invoice_row : Instant → Uuid → List NewOrderItem → NewInvoice → InvoiceOrm
unfolding item_of
invoice_row filed_at order_id items invoice = record {
  base = record { id = invoice.id; created_at = filed_at; updated_at = some filed_at };
  order_id = order_id;
  order_item_id = item_of items invoice;
  credit_part_index = invoice.credit_part_index;
  title = invoice.title;
  type = invoice.type;
  amount = invoice.amount;
  status = invoice.status;
}

item_row : Uuid → NewOrderItem → OrderItemOrm
item_row order_id item = record {
  base = item.base;
  item_id = item.item_id;
  order_id = order_id;
  quantity = item.quantity;
  price = item.price;
  by_credit = item.by_credit;
}

optional : {A : Type 0} → Option A → List A
optional none = []
optional (some a) = a ∷ []

-- Every invoice of an order item is one of the order's: else its column `order_id` is missing.
unfoldable pub invoices_filed : List NewInvoice → List NewOrderItem → Bool
invoices_filed order_invoices items =
    all (λ item. all (λ held. any (λ invoice. invoice.id == held.id) order_invoices) item.invoices)
      items

-- `order_repository.create(OrderORM(...))`: the order and what it refers to are added and flushed.
unfoldable pub file_order :
    Instant
    → OrderOrm
    → Option DeliveryOrm
    → List NewOrderItem
    → List NewInvoice
    → Action World (Unit {0})
unfolding invoices_filed invoice_row item_row optional
file_order filed_at order delivery items order_invoices = do
  raise_if (not (invoices_filed order_invoices items)) integrity_error
  modify (λ w. record w {
    db = record w.db {
      orders = w.db.orders ++ order ∷ [];
      deliveries = w.db.deliveries ++ optional delivery;
      order_items = w.db.order_items ++ map (item_row order.id) items;
      invoices = w.db.invoices ++ map (invoice_row filed_at order.id items) order_invoices;
    };
  })
