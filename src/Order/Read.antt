-- ===== src/Order/Read.antt =====
-- `OrderService.get_user_order` (src/services/order/service.py). What pydantic makes of the values
-- of an `OrderItem` and of an `Order`, and the text of a day, are the parameter `Reading`.
pub mod Owner
mod Tests
use fast_api_example.Prelude.{
  ◌*ℤ◌, ◌==◌, if◌then◌else◌, length, filter, head?, String, str_append, Bool, false, not, ◌||◌,
  Option, none, some, List, [], ◌∷◌, str_eq,
}
use fast_api_example.Errors.{
  attribute_error, type_error, index_error, other, raise_class, forbidden,
}
use fast_api_example.Database.{
  Uuid, Instant, Db, InvoiceOrm, OrderItemOrm, OrderOrm, DeliveryOrm, PreorderOrm,
}
use fast_api_example.App.{
  World, Action, Result, ok, err, gets, lift, or_raise, raise_if, get_by_id, ◌>>=◌, ◌>>◌,
}
use fast_api_example.Catalog.Images.{image_urls}
use fast_api_example.Catalog.Models.{CreditPart}
use fast_api_example.Catalog.Checkout.{plan_parts}
use fast_api_example.Order.Constants.{
  InvoiceStatus, InvoiceType, shipping_foreign, shipping_local, invoice_status_value,
  invoice_type_value, delivery_tracking_link,
}
use fast_api_example.Order.Models.{Invoice, Credit, OrderItem, DeliveryInfo, Tracking, Order}

pub record Reading : Type 0 where
  pub item : OrderItem → Result OrderItem
  pub order : Order → Result Order
  pub day_text : Instant → String

unfoldable pub invoices_of_item : Uuid → Db → List InvoiceOrm
invoices_of_item item_id db =
    filter (λ inv. elim inv.order_item_id [ none ↦ false | some id ↦ id == item_id ]) db.invoices

unfoldable pub is_unpaid : InvoiceOrm → Bool
unfolding invoice_status_value
is_unpaid inv = str_eq inv.status (invoice_status_value InvoiceStatus.unpaid)

-- The credit of an item, from its invoices and the parts of its plan.
unfoldable pub credit_from : List InvoiceOrm → List CreditPart → Credit
unfolding is_unpaid
credit_from invoices payments =
    let first_unpaid = head? (filter is_unpaid invoices) in
    record {
      payments = payments;
      paid_parts = elim first_unpaid [
        | some inv ↦ inv.credit_part_index
        | none ↦ some (length invoices)
      ];
      invoice = elim first_unpaid [
        | some inv ↦ some (record {
          id = inv.id;
          credit_part_index = inv.credit_part_index;
          amount = inv.amount;
          type = inv.type;
          is_paid = false;
        })
        | none ↦ none
      ];
    }

-- `item.info.credit_plan.parts`: a missing row is `None`, whose attribute raises.
unfoldable pub credit_of : Db → OrderItemOrm → Result (Option Credit)
unfolding credit_from invoices_of_item plan_parts
credit_of db item =
    if item.by_credit
    then elim (get_by_id (λ row. row.id) item.item_id db.catalog_items) [
      | none ↦ err attribute_error
      | some info ↦ (elim (plan_parts db info.credit_plan_id) [
        | none ↦ err attribute_error
        | some payments ↦ ok (some (credit_from (invoices_of_item item.id db) payments))
      ])
    ]
    else ok none

-- The `OrderItem` of a row, with its credit.
unfoldable pub order_item : Reading → Db → OrderItemOrm → Option Credit → Result OrderItem
unfolding image_urls
order_item reading db item credit = elim (get_by_id (λ row. row.id) item.item_id db.catalog_items) [
  | none ↦ err attribute_error
  | some info ↦ (elim (get_by_id (λ row. row.id) info.product_id db.products) [
    | none ↦ err attribute_error
    | some product ↦ (elim (head? (image_urls product.id db)) [
      | none ↦ err index_error
      | some image ↦ reading.item (record {
        id = item.item_id;
        title = product.title;
        image = image;
        quantity = item.quantity;
        sum = item.quantity *ℤ item.price;
        credit = credit;
      })
    ])
  ])
]

-- The loop over `order.order_items`
unfoldable pub order_items : Reading → Db → List OrderItemOrm → Result (List OrderItem)
unfolding credit_of order_item
order_items reading db [] = ok []
order_items reading db (item ∷ items) = elim (credit_of db item) [
  | err e ↦ err e
  | ok credit ↦ (elim (order_item reading db item credit) [
    | err e ↦ err e
    | ok made ↦ (elim (order_items reading db items) [ err e ↦ err e | ok rest ↦ ok (made ∷ rest) ])
  ])
]

-- `InvoiceType(inv.type)`
unfoldable pub is_invoice_type : String → Bool
unfolding invoice_type_value
is_invoice_type type =
    str_eq type (invoice_type_value InvoiceType.initial)
    || str_eq type (invoice_type_value InvoiceType.credit)
    || str_eq type (invoice_type_value shipping_foreign)
    || str_eq type (invoice_type_value shipping_local)

-- The invoices of the order, without those of credits.
unfoldable pub shown_invoices : List InvoiceOrm → Result (List Invoice)
unfolding is_invoice_type invoice_type_value invoice_status_value
shown_invoices [] = ok []
shown_invoices (inv ∷ invoices) =
    let rest = shown_invoices invoices in
    if str_eq inv.type (invoice_type_value InvoiceType.credit)
    then rest
    else if not (is_invoice_type inv.type)
    then err (other "ValueError")
    else elim rest [
      | err e ↦ err e
      | ok made ↦ ok (
          record {
            id = inv.id;
            credit_part_index = none;
            amount = inv.amount;
            type = inv.type;
            is_paid = str_eq inv.status (invoice_status_value InvoiceStatus.paid);
          }
          ∷ made)
    ]

-- A text that is `None` or empty is false; `None + code` is a TypeError.
unfoldable pub tracking_of : Option DeliveryOrm → Result (Option Tracking)
unfolding delivery_tracking_link
tracking_of none = ok none
tracking_of (some delivery) = elim delivery.track_code [
  | none ↦ ok none
  | some code ↦
      (if str_eq code "" then ok none else elim (delivery_tracking_link delivery.service) [
        | none ↦ err type_error
        | some link ↦ ok (some (record { code = code; link = str_append link code }))
      ])
]

unfoldable pub delivery_info : DeliveryOrm → DeliveryInfo
delivery_info delivery = record {
  service = delivery.service;
  address = delivery.address;
  code = delivery.address_identifier;
  full_name = delivery.recipient_name;
  phone = delivery.recipient_phone;
}

-- The row that a nullable foreign key refers to.
unfoldable pub referred : {A : Type 0} → (A → Uuid) → Option Uuid → List A → Option A
referred id_of none rows = none
referred id_of (some id) rows = get_by_id id_of id rows

-- The `Order` of a row.
unfoldable pub order_of :
    Reading
    → OrderOrm
    → List OrderItem
    → PreorderOrm
    → Option DeliveryOrm
    → List Invoice
    → Option Tracking
    → Order
unfolding delivery_info
order_of reading order items preorder delivery invoices tracking = record {
  id = order.id;
  created_at = order.created_at;
  status = order.status;
  items = items;
  preorder = record {
    id = order.preorder_id;
    title = str_append "Предзаказ от " (reading.day_text preorder.created_at);
    status = preorder.status;
    expected_arrival = preorder.expected_arrival;
  };
  delivery = elim delivery [ none ↦ none | some row ↦ some (delivery_info row) ];
  invoices = invoices;
  tracking = tracking;
}

-- What `get_user_order` makes of the row of an order, after the test of its user.
unfoldable pub shown_order : Reading → Db → OrderOrm → Result Order
unfolding order_items shown_invoices tracking_of referred order_of
shown_order reading db order =
    let delivery = referred (λ row. row.id) order.delivery_id db.deliveries in
    elim (order_items reading db (filter (λ item. item.order_id == order.id) db.order_items)) [
      | err e ↦ err e
      | ok items ↦ (elim (referred (λ row. row.id) order.preorder_id db.preorders) [
        | none ↦ err attribute_error
        | some preorder ↦
            (elim (shown_invoices (filter (λ inv. inv.order_id == order.id) db.invoices)) [
              | err e ↦ err e
              | ok invoices ↦ (elim (tracking_of delivery) [
                | err e ↦ err e
                | ok tracking ↦
                    reading.order (order_of reading order items preorder delivery invoices tracking)
              ])
            ])
      ])
    ]

-- `OrderService.get_user_order`
unfoldable pub get_user_order : Reading → Uuid → Uuid → Action World Order
unfolding shown_order ◌>>=◌
get_user_order reading order_id user_id = do
  db ← gets (λ w. w.db)
  order ← or_raise (get_by_id (λ row. row.id) order_id db.orders) attribute_error
  raise_if (not (order.user_id == user_id)) (raise_class forbidden)
  lift (shown_order reading db order)
