-- ===== src/Order/Payment/Statuses.antt =====
-- Which statuses a notification gives (src/services/order/service.py and constants.py).
use fast_api_example.Prelude.{
  ◌==◌, if◌then◌else◌, ==_iff, Bool-cases, String, ◌≡◌, refl, ap, ◌∙◌, ◌⊎◌, inl, inr, Option, none,
  some, List, [], ◌∷◌, arith, eq_iff,
}
use fast_api_example.Database.{Uuid, Db, InvoiceOrm, OrderOrm}
use fast_api_example.App.{World, ok, get_by_id, get-update_if, get_by_id-id}
use fast_api_example.Tinkoff.{PaymentStatusNotification}
use fast_api_example.Order.Constants.{
  OrderStatus, accepted, order_status_value, invoice_status_value, payment_to_invoice_status,
  invoice_to_order_status, invoice_type_value,
}
use fast_api_example.Order.Payment.{
  with_order_status, payments_of, next_invoice_status, next_order_status, set_order_status,
  update_payment_status,
}
use fast_api_example.Order.Payment.Outcome.{named, outcome, update_payment_status-outcome}

-- An order is only ever set to ACCEPTED, and only by an INITIAL invoice that is PAID.
next_order_status-some :
    (type status : String) (s : OrderStatus)
    → next_order_status type status ≡ some s
    → (type ≡ "INITIAL") × (status ≡ "PAID") × (s ≡ accepted)
unfolding next_order_status invoice_to_order_status invoice_type_value invoice_status_value
next_order_status-some type status s h = ground (arith, eq_iff type "INITIAL", eq_iff status "PAID")

-- What an order on file becomes.
abbrev order_after : Option OrderStatus → Uuid → OrderOrm → OrderOrm
order_after none id row = row
order_after (some s) id row =
    if row.id == id then with_order_status (order_status_value s) row else row

get-set_order_status :
    (s : Option OrderStatus) (id k : Uuid) (rows : List OrderOrm) (row : OrderOrm)
    → get_by_id (λ r. r.id) k rows ≡ some row
    → get_by_id (λ r. r.id) k (set_order_status s id rows) ≡ some (order_after s id row)
unfolding set_order_status
get-set_order_status none id k rows row h = h
get-set_order_status (some s) id k rows row h =
    get-update_if (λ r. r.id) k id (with_order_status (order_status_value s)) rows row (λ r. refl) h

-- What a notification makes of an order: it is as it was, or it is ACCEPTED, by a PAID invoice of
-- type INITIAL of its own.
abbrev pub IsKeptOrAccepted : PaymentStatusNotification → InvoiceOrm → OrderOrm → OrderOrm → Type 0
IsKeptOrAccepted n invoice order order' =
    (order' ≡ order)
    ⊎ ((order' ≡ with_order_status "ACCEPTED" order)
        × (order.id ≡ invoice.order_id)
        × (invoice.type ≡ "INITIAL")
        × (next_invoice_status n.status invoice.status ≡ "PAID"))

order_after-IsKeptOrAccepted :
    (n : PaymentStatusNotification) (invoice : InvoiceOrm) (order : OrderOrm)
    (s : Option OrderStatus)
    → next_order_status invoice.type (next_invoice_status n.status invoice.status) ≡ s
    → IsKeptOrAccepted n invoice order (order_after s invoice.order_id order)
unfolding order_status_value
order_after-IsKeptOrAccepted n invoice order none e = inl refl
order_after-IsKeptOrAccepted n invoice order (some s) e =
    let (initial, paid, accept) = next_order_status-some _ _ s e in
    elim (Bool-cases (order.id == invoice.order_id)) [
      | inl same ↦ rw same (
          inr (
            ap (λ t. with_order_status (order_status_value t) order) accept,
            (==_iff order.id invoice.order_id).0 same,
            initial,
            paid,
          ))
      | inr other ↦ rw other (inl refl)
    ]

outcome-order :
    (n : PaymentStatusNotification) (ids : List Uuid) (invoice : InvoiceOrm) (db : Db) (k : Uuid)
    (order : OrderOrm)
    → get_by_id (λ r. r.id) k db.orders ≡ some order
    → (order' : OrderOrm) × (get_by_id (λ r. r.id) k (outcome n ids invoice db).orders
        ≡ some order')
      × IsKeptOrAccepted n invoice order order'
outcome-order n [] invoice db k order h = (order, h, inl refl)
outcome-order n (id ∷ ids) invoice db k order h =
    let s = next_order_status invoice.type (next_invoice_status n.status invoice.status) in
    (
      order_after s invoice.order_id order,
      get-set_order_status s invoice.order_id k db.orders order h,
      order_after-IsKeptOrAccepted n invoice order s refl,
    )

-- An order stays on file under every notification, and changes only so: it becomes ACCEPTED, if it
-- is the order of an invoice of type INITIAL which the notification leaves PAID.
pub order_changes :
    (n : PaymentStatusNotification) (w : World) (invoice : InvoiceOrm) (k : Uuid) (order : OrderOrm)
    → get_by_id (λ r. r.id) n.invoice_id w.db.invoices ≡ some invoice
    → get_by_id (λ r. r.id) k w.db.orders ≡ some order
    → (order' : OrderOrm) × (get_by_id (λ r. r.id) k (update_payment_status n w).1.db.orders
        ≡ some order')
      × IsKeptOrAccepted n invoice order order'
order_changes n w invoice k order found h =
    rw (update_payment_status-outcome n w invoice found)
      (outcome-order n (named n (payments_of invoice.id w.db.payments)) invoice w.db k order h)

paid_initial :
    (type status : String)
    → type ≡ "INITIAL"
    → status ≡ "PAID"
    → next_order_status type status ≡ some accepted
unfolding next_order_status invoice_to_order_status invoice_type_value invoice_status_value
paid_initial type status h k = rw (h, k) refl

-- The notification leaves the invoice PAID: it says CONFIRMED, or the invoice was PAID and the
-- notification's status maps to no status of an invoice.
abbrev pub LeavesPaid : PaymentStatusNotification → InvoiceOrm → Type 0
LeavesPaid n invoice =
    (n.status ≡ "CONFIRMED")
    ⊎ ((payment_to_invoice_status n.status ≡ none) × (invoice.status ≡ "PAID"))

next_invoice_status-paid :
    (n : PaymentStatusNotification) (invoice : InvoiceOrm)
    → LeavesPaid n invoice
    → next_invoice_status n.status invoice.status ≡ "PAID"
unfolding next_invoice_status payment_to_invoice_status invoice_status_value
next_invoice_status-paid n invoice (inl confirmed) = rw confirmed refl
next_invoice_status-paid n invoice (inr (unmapped, paid)) = rw (unmapped, next_invoice_status) paid

outcome-accepted :
    (n : PaymentStatusNotification) (id : Uuid) (ids : List Uuid) (invoice : InvoiceOrm) (db : Db)
    (order : OrderOrm)
    → invoice.type ≡ "INITIAL"
    → next_invoice_status n.status invoice.status ≡ "PAID"
    → get_by_id (λ r. r.id) invoice.order_id db.orders ≡ some order
    → get_by_id (λ r. r.id) invoice.order_id (outcome n (id ∷ ids) invoice db).orders
      ≡ some (with_order_status "ACCEPTED" order)
unfolding order_status_value
outcome-accepted n id ids invoice db order type paid h =
    get-set_order_status _ invoice.order_id invoice.order_id db.orders order h
    ∙ ap some (
        ap (λ s. order_after s invoice.order_id order)
          (paid_initial invoice.type (next_invoice_status n.status invoice.status) type paid)
        ∙ rw
            ((==_iff order.id invoice.order_id).1
              (get_by_id-id (λ r. r.id) invoice.order_id db.orders order h))
            refl)

-- If the notification names a payment of an invoice of type INITIAL and leaves it PAID, the order
-- of the invoice becomes ACCEPTED, whatever status it had. The notification leaves it PAID where it
-- says CONFIRMED, or where the invoice was PAID before and the notification's status maps to no
-- status of an invoice: the latter sets an order that is under way, finished or canceled back to
-- ACCEPTED.
pub order_accepted :
    (n : PaymentStatusNotification) (w : World) (invoice : InvoiceOrm) (order : OrderOrm)
    (id : Uuid) (ids : List Uuid)
    → get_by_id (λ r. r.id) n.invoice_id w.db.invoices ≡ some invoice
    → get_by_id (λ r. r.id) invoice.order_id w.db.orders ≡ some order
    → named n (payments_of invoice.id w.db.payments) ≡ id ∷ ids
    → invoice.type ≡ "INITIAL"
    → LeavesPaid n invoice
    → let (result, w') = update_payment_status n w in
      (result ≡ ok tt)
      × (get_by_id (λ r. r.id) invoice.order_id w'.db.orders
          ≡ some (with_order_status "ACCEPTED" order))
order_accepted n w invoice order id ids found h names type leaves =
    rw (update_payment_status-outcome n w invoice found, names)
      (
        refl,
        outcome-accepted n id ids invoice w.db order type
            (next_invoice_status-paid n invoice leaves) h,
      )
