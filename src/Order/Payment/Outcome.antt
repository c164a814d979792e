-- ===== src/Order/Payment/Outcome.antt =====
-- What `update_payment_status` (src/services/order/service.py) leaves, in closed form, and that a
-- notification which the bank sends again changes nothing more.
use fast_api_example.Prelude.{
  eq_ℤ, ◌==◌, if◌then◌else◌, Bool-cases, contains, ℕ, String, ◌≡◌, refl, sym, ap, ◌∙◌, inl, inr,
  ◌||◌, Option, none, some, List, [], ◌∷◌, ◌++◌, append-nil, append_assoc, arith,
}
use fast_api_example.Errors.{attribute_error}
use fast_api_example.Database.{Uuid, Db, PaymentOrm, InvoiceOrm, OrderOrm}
use fast_api_example.App.{
  World, ok, err, get_by_id, update_by_id, update_where, update_where_ext, update_where_same,
  update_where_twice,
}
use fast_api_example.Tinkoff.{PaymentStatusNotification}
use fast_api_example.Order.Constants.{OrderStatus, order_status_value}
use fast_api_example.Order.Payment.{
  with_payment_status, with_invoice_status, with_order_status, payments_of, next_invoice_status,
  next_order_status, set_order_status, apply_notification, payment_loop, update_payment_status,
}

-- The identifiers of the payments that the notification names.
abbrev pub named : PaymentStatusNotification → List PaymentOrm → List Uuid
named n [] = []
named n (payment ∷ payments) =
    if eq_ℤ payment.external_id n.payment_id
    then payment.id ∷ named n payments
    else named n payments

-- The tables after the notification: the named payments have its status, and the invoice and its
-- order have theirs.
abbrev pub outcome : PaymentStatusNotification → List Uuid → InvoiceOrm → Db → Db
outcome n [] invoice db = db
outcome n (id ∷ ids) invoice db =
    let invoice_status = next_invoice_status n.status invoice.status in
    record db {
      payments =
          update_where (λ row. contains row.id (id ∷ ids)) (with_payment_status n.status)
            db.payments;
      invoices =
          update_by_id (λ row. row.id) invoice.id (with_invoice_status invoice_status) db.invoices;
      orders =
          set_order_status (next_order_status invoice.type invoice_status) invoice.order_id
            db.orders;
    }

next_invoice_status_idem :
    (status current : String)
    → next_invoice_status status (next_invoice_status status current)
      ≡ next_invoice_status status current
unfolding next_invoice_status
next_invoice_status_idem status current = ground arith

set_order_status_idem :
    (s : Option OrderStatus) (id : Uuid) (orders : List OrderOrm)
    → set_order_status s id (set_order_status s id orders) ≡ set_order_status s id orders
unfolding set_order_status
set_order_status_idem none id orders = refl
set_order_status_idem (some s) id orders =
    update_where_same (λ order. order.id == id) (with_order_status (order_status_value s)) orders
      (λ order. refl) (λ order. refl)

pub contains-append :
    (k : ℕ) (xs ys : List ℕ) → contains k (xs ++ ys) ≡ (contains k xs || contains k ys)
contains-append k [] ys = refl
contains-append k (x ∷ xs) ys = ground (arith, contains-append k xs ys)

payments_twice :
    (status : String) (ids more : List Uuid) (rows : List PaymentOrm)
    → update_where
        (λ row. contains row.id more)
        (with_payment_status status)
        (update_where (λ row. contains row.id ids) (with_payment_status status) rows)
      ≡ update_where (λ row. contains row.id (ids ++ more)) (with_payment_status status) rows
payments_twice status ids more rows =
    update_where_twice (λ row. contains row.id ids) (λ row. contains row.id more)
      (with_payment_status status) rows (λ row. refl) (λ row. refl)
    ∙ update_where_ext (λ row. contains row.id ids || contains row.id more)
        (λ row. contains row.id (ids ++ more)) (with_payment_status status) rows
        (λ row. sym (contains-append row.id ids more))

invoices_twice :
    (status current : String) (id : Uuid) (rows : List InvoiceOrm)
    → update_by_id
        (λ row. row.id)
        id
        (with_invoice_status (next_invoice_status status (next_invoice_status status current)))
        (update_by_id
          (λ row. row.id)
          id
          (with_invoice_status (next_invoice_status status current))
          rows)
      ≡ update_by_id
          (λ row. row.id)
          id
          (with_invoice_status (next_invoice_status status current))
          rows
invoices_twice status current id rows = rw (next_invoice_status_idem status current) (
    update_where_same (λ row. row.id == id)
      (with_invoice_status (next_invoice_status status current)) rows (λ row. refl) (λ row. refl))

orders_twice :
    (status current type : String) (id : Uuid) (rows : List OrderOrm)
    → set_order_status
        (next_order_status type (next_invoice_status status (next_invoice_status status current)))
        id
        (set_order_status (next_order_status type (next_invoice_status status current)) id rows)
      ≡ set_order_status (next_order_status type (next_invoice_status status current)) id rows
orders_twice status current type id rows =
    rw (next_invoice_status_idem status current) (set_order_status_idem _ id rows)

-- The invoice object after its status has been set.
abbrev pub notified : PaymentStatusNotification → InvoiceOrm → InvoiceOrm
notified n invoice = with_invoice_status (next_invoice_status n.status invoice.status) invoice

-- Two notifications in a row with one status, on one invoice, are one on the payments of both.
pub outcome-outcome :
    (n : PaymentStatusNotification) (id : Uuid) (ids more : List Uuid) (invoice : InvoiceOrm)
    (db : Db)
    → outcome n more (notified n invoice) (outcome n (id ∷ ids) invoice db)
      ≡ outcome n ((id ∷ ids) ++ more) invoice db
outcome-outcome n id ids [] invoice db = rw append-nil
outcome-outcome n id ids (other ∷ more) invoice db = λ i. record db {
  payments = payments_twice n.status (id ∷ ids) (other ∷ more) db.payments i;
  invoices = invoices_twice n.status invoice.status invoice.id db.invoices i;
  orders = orders_twice n.status invoice.status invoice.type invoice.order_id db.orders i;
}

apply-outcome :
    (n : PaymentStatusNotification) (payment : PaymentOrm) (invoice : InvoiceOrm) (db : Db)
    → apply_notification n payment (invoice, db)
      ≡ (notified n invoice, outcome n (payment.id ∷ []) invoice db)
unfolding apply_notification
apply-outcome n payment invoice db = λ i. (
  notified n invoice,
  record db {
    payments =
        update_where_ext (λ row. row.id == payment.id) (λ row. contains row.id (payment.id ∷ []))
          (with_payment_status n.status) db.payments (λ row. ground arith) i;
    invoices =
        update_by_id (λ row. row.id) invoice.id
          (with_invoice_status (next_invoice_status n.status invoice.status)) db.invoices;
    orders =
        set_order_status
          (next_order_status invoice.type (next_invoice_status n.status invoice.status))
          invoice.order_id db.orders;
  },
)

notified_idem :
    (n : PaymentStatusNotification) (invoice : InvoiceOrm)
    → notified n (notified n invoice) ≡ notified n invoice
notified_idem n invoice =
    λ i. with_invoice_status (next_invoice_status_idem n.status invoice.status i) invoice

step_treated :
    (n : PaymentStatusNotification) (payment : PaymentOrm) (id : Uuid) (ids : List Uuid)
    (invoice : InvoiceOrm) (db : Db)
    → apply_notification n payment (notified n invoice, outcome n (id ∷ ids) invoice db)
      ≡ (notified n invoice, outcome n (id ∷ (ids ++ payment.id ∷ [])) invoice db)
step_treated n payment id ids invoice db =
    apply-outcome n payment (notified n invoice) (outcome n (id ∷ ids) invoice db) ∙ λ i.
    (notified_idem n invoice i, outcome-outcome n id ids (payment.id ∷ []) invoice db i)

-- The loop, from the state in which some payments have been treated.
loop_treated :
    (n : PaymentStatusNotification) (payments : List PaymentOrm) (id : Uuid) (ids : List Uuid)
    (invoice : InvoiceOrm) (db : Db)
    → (payment_loop n payments (notified n invoice, outcome n (id ∷ ids) invoice db)).1
      ≡ outcome n ((id ∷ ids) ++ named n payments) invoice db
unfolding payment_loop
loop_treated n [] id ids invoice db = rw append-nil
loop_treated n (payment ∷ payments) id ids invoice db =
    elim (Bool-cases (eq_ℤ payment.external_id n.payment_id)) [
      | inl same ↦
          rw (same, payment_loop)
            (ap (λ s. (payment_loop n payments s).1) (step_treated n payment id ids invoice db)
              ∙ loop_treated n payments id (ids ++ payment.id ∷ []) invoice db
              ∙ ap (λ l. outcome n (id ∷ l) invoice db)
                  (append_assoc ids (payment.id ∷ []) (named n payments)))
      | inr other ↦ rw (other, payment_loop) (loop_treated n payments id ids invoice db)
    ]

pub loop-outcome :
    (n : PaymentStatusNotification) (payments : List PaymentOrm) (invoice : InvoiceOrm) (db : Db)
    → (payment_loop n payments (invoice, db)).1 ≡ outcome n (named n payments) invoice db
unfolding payment_loop
loop-outcome n [] invoice db = refl
loop-outcome n (payment ∷ payments) invoice db =
    elim (Bool-cases (eq_ℤ payment.external_id n.payment_id)) [
      | inl same ↦
          rw (same, payment_loop)
            (ap (λ s. (payment_loop n payments s).1) (apply-outcome n payment invoice db)
              ∙ loop_treated n payments payment.id [] invoice db)
      | inr other ↦ rw (other, payment_loop) (loop-outcome n payments invoice db)
    ]

-- The notification of an invoice on file returns, and leaves exactly this: the payments of the
-- invoice that it names have its status; if there is one, the invoice has the status that the
-- payment's status maps to, where it maps to one, and the order of an invoice of type INITIAL has
-- the status that the invoice's status maps to, where it maps to one; all else is as it was.
pub update_payment_status-outcome :
    (n : PaymentStatusNotification) (w : World) (invoice : InvoiceOrm)
    → get_by_id (λ row. row.id) n.invoice_id w.db.invoices ≡ some invoice
    → update_payment_status n w ≡ (
      ok tt,
      record w { db = outcome n (named n (payments_of invoice.id w.db.payments)) invoice w.db },
    )
unfolding update_payment_status
update_payment_status-outcome n w invoice found = rw found (
    ap (λ db. (ok tt, record w { db = db }))
      (loop-outcome n (payments_of invoice.id w.db.payments) invoice w.db))

-- A notification of an invoice that is not on file raises, and changes nothing.
pub update_payment_status-unknown :
    (n : PaymentStatusNotification) (w : World)
    → get_by_id (λ row. row.id) n.invoice_id w.db.invoices ≡ none
    → update_payment_status n w ≡ (err attribute_error, w)
unfolding update_payment_status
update_payment_status-unknown n w missing = rw missing
