-- ===== src/Order/Payment.antt =====
-- `OrderService.update_payment_status` of src/services/order/service.py: what a notification of
-- the bank changes.
pub mod Outcome
pub mod Repeat
pub mod Statuses
mod Tests
use fast_api_example.Prelude.{
  eq_ℤ, ◌==◌, if◌then◌else◌, filter, String, Option, none, some, List, [], ◌∷◌, str_eq,
}
use fast_api_example.Errors.{attribute_error}
use fast_api_example.Database.{Uuid, Db, PaymentOrm, InvoiceOrm, OrderOrm}
use fast_api_example.App.{
  World, Action, gets, modify, or_raise, get_by_id, update_by_id, ◌>>=◌, ◌>>◌,
}
use fast_api_example.Tinkoff.{PaymentStatusNotification}
use fast_api_example.Order.Constants.{
  OrderStatus, initial, invoice_status_value, order_status_value, invoice_type_value,
  payment_to_invoice_status, invoice_to_order_status,
}

-- `payment.status = status`, and so for the other tables
abbrev pub with_payment_status : String → PaymentOrm → PaymentOrm
with_payment_status status row = record row { status = status }

abbrev pub with_invoice_status : String → InvoiceOrm → InvoiceOrm
with_invoice_status status row = record row { status = status }

abbrev pub with_order_status : String → OrderOrm → OrderOrm
with_order_status status row = record row { status = status }

-- `invoice.payments`
unfoldable pub payments_of : Uuid → List PaymentOrm → List PaymentOrm
payments_of invoice_id = filter (λ payment. payment.invoice_id == invoice_id)

-- The status of the invoice after `if new_invoice_status := …`.
unfoldable pub next_invoice_status : String → String → String
unfolding payment_to_invoice_status invoice_status_value
next_invoice_status payment_status current = elim (payment_to_invoice_status payment_status) [
  | some s ↦ invoice_status_value s
  | none ↦ current
]

-- The status that the order is set to, if it is: the second `if` of the loop.
unfoldable pub next_order_status : String → String → Option OrderStatus
unfolding invoice_to_order_status invoice_type_value
next_order_status invoice_type invoice_status =
    if str_eq invoice_type (invoice_type_value initial)
    then invoice_to_order_status invoice_status
    else none

unfoldable pub set_order_status : Option OrderStatus → Uuid → List OrderOrm → List OrderOrm
unfolding order_status_value
set_order_status none order_id orders = orders
set_order_status (some s) order_id orders =
    update_by_id (λ order. order.id) order_id (with_order_status (order_status_value s)) orders

-- The body of the loop for a payment that the notification names.
unfoldable pub apply_notification :
    PaymentStatusNotification → PaymentOrm → InvoiceOrm × Db → InvoiceOrm × Db
apply_notification n payment (invoice, db) =
    let invoice_status = next_invoice_status n.status invoice.status in
    (
      with_invoice_status invoice_status invoice,
      record db {
        payments =
            update_by_id (λ row. row.id) payment.id (with_payment_status n.status) db.payments;
        invoices =
            update_by_id (λ row. row.id) invoice.id (with_invoice_status invoice_status)
              db.invoices;
        orders =
            set_order_status (next_order_status invoice.type invoice_status) invoice.order_id
              db.orders;
      },
    )

-- `for payment in invoice.payments`
unfoldable pub payment_loop :
    PaymentStatusNotification → List PaymentOrm → InvoiceOrm × Db → InvoiceOrm × Db
payment_loop n [] s = s
payment_loop n (payment ∷ payments) s =
    payment_loop n payments
      (if eq_ℤ payment.external_id n.payment_id then apply_notification n payment s else s)

unfoldable pub update_payment_status : PaymentStatusNotification → Action World (Unit {0})
unfolding ◌>>=◌
update_payment_status n = do
  found ← gets (λ w. get_by_id (λ row. row.id) n.invoice_id w.db.invoices)
  invoice ← or_raise found attribute_error
  modify (λ w. record w {
    db = (payment_loop n (payments_of invoice.id w.db.payments) (invoice, w.db)).1;
  })
