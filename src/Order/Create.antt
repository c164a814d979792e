-- ===== src/Order/Create.antt =====
-- `OrderService.create_order` of src/services/order/service.py. An argument `filed_at` is the
-- moment that the column defaults of a flush read.
pub mod Refused
pub mod Amounts
mod Tests
use fast_api_example.Prelude.{
  head?, sum_by, ◌+◌, ◌-◌, ◌*◌, ◌%◌, String, Option, none, some, List, [], ◌∷◌, ◌++◌, map,
}
use fast_api_example.Errors.{attribute_error, index_error}
use fast_api_example.Database.{Uuid, Instant}
use fast_api_example.App.{
  draw, new_base, Env, World, Action, UserIdentity, a_dict, gets, pure, lift, modify, or_raise,
  ◌>>=◌, ◌>>◌,
}
use fast_api_example.Catalog.Models.{AvailableCheckoutItem, amount_converted, price_converted}
use fast_api_example.Tinkoff.{InitPaymentRequest, ReceiptItem}
use fast_api_example.Tinkoff.Client.{init_payment}
use fast_api_example.Order.Constants.{OrderStatus, unpaid, order_status_value}
use fast_api_example.Order.Models.{Delivery}
use fast_api_example.Order.Filing.{new_delivery, new_order_items, file_order}
use fast_api_example.Order.Invoices.{make_order_invoices_objects}

unfoldable pub receipt_item : AvailableCheckoutItem → ReceiptItem
unfolding amount_converted price_converted
receipt_item item = record {
  name = item.title;
  price = price_converted item;
  quantity = item.quantity;
  amount = amount_converted item;
  tax = "none";
}

-- The `InitPaymentRequest` of the order.
unfoldable pub payment_request :
    UserIdentity → List AvailableCheckoutItem → Uuid → Uuid → Instant → InitPaymentRequest
unfolding receipt_item
payment_request user checkout_items initial_id order_id due_date =
    let receipt_items = map receipt_item checkout_items in
    record {
      amount = sum_by (λ item. item.amount) receipt_items;
      order_id = initial_id;
      description_prefix = "Номер заказа: ";
      description_order = order_id;
      redirect_due_date = some due_date;
      phone = user.phone;
      email = user.email;
      receipt = record {
        email = user.email;
        phone = user.phone;
        taxation = "usn_income_outcome";
        items = receipt_items;
      };
    }

-- `HOURS_TILL_ORDER_EXPIRES` of src/constants.py, in microseconds.
abbrev till_order_expires : Instant
till_order_expires = 1 * 3600 * 1000000

-- `.replace(microsecond=0)`
whole_second : Instant → Instant
whole_second t = t - t % 1000000

unfoldable pub create_order :
    Env
    → Instant
    → Instant
    → Option UserIdentity
    → List Uuid
    → Option Delivery
    → List AvailableCheckoutItem
    → Action World String
unfolding whole_second order_status_value
create_order env filed_at now identity credit_items_ids delivery_data checkout_items = do
  drawn ← gets (λ w. w.drawn)
  let made = make_order_invoices_objects env.uuid4 checkout_items credit_items_ids drawn
  let invoices = made.0
  modify (λ w. record w { drawn = made.1 })
  user ← or_raise identity attribute_error
  first ← or_raise (head? checkout_items) index_error
  delivery ← new_delivery env filed_at delivery_data
  items ← new_order_items env filed_at invoices credit_items_ids checkout_items
  base ← new_base env filed_at
  order_invoices ← lift (env.assign (a_dict invoices.initial_invoice invoices.credit_invoices))
  file_order filed_at
      (record {
        base = base;
        user_id = user.id;
        preorder_id = first.preorder_id;
        delivery_id = elim delivery [ none ↦ none | some row ↦ some row.id ];
        status = order_status_value OrderStatus.unpaid;
      })
      delivery items order_invoices
  let created_at = whole_second now
  let due_date = created_at + till_order_expires
  payment ←
      init_payment env
        (payment_request user checkout_items invoices.initial_invoice.id base.id due_date)
  payment_id ← draw env
  modify (λ w. record w {
    db = record w.db {
      payments =
          w.db.payments
          ++ record {
            base = record { id = payment_id; created_at = created_at; updated_at = some due_date };
            invoice_id = invoices.initial_invoice.id;
            url = payment.payment_url;
            status = payment.status;
            external_id = payment.payment_id;
          }
            ∷ [];
    };
  })
  pure payment.payment_url
