-- ===== src/Order/Payment/Repeat.antt =====
-- A notification that the bank sends again (src/services/order/service.py).
use mathlib.Core.Path.{subst}
use fast_api_example.Prelude.{
  contains, String, ◌≡◌, refl, sym, ap, ◌∙◌, Bool, some, List, [], ◌∷◌, ◌++◌, arith,
}
use fast_api_example.Database.{Uuid, Db, PaymentOrm, InvoiceOrm}
use fast_api_example.App.{
  World, ok, get_by_id, update_by_id, update_where, update_where_ext, get-update, get_by_id-id,
}
use fast_api_example.Tinkoff.{PaymentStatusNotification}
use fast_api_example.Order.Payment.{
  with_payment_status, with_invoice_status, payments_of, next_invoice_status, update_payment_status,
}
use fast_api_example.Order.Payment.Outcome.{
  named, outcome, notified, contains-append, outcome-outcome, update_payment_status-outcome,
}

-- The invoice as the notification leaves it, by the payments that it names.
abbrev after : PaymentStatusNotification → List Uuid → InvoiceOrm → InvoiceOrm
after n [] invoice = invoice
after n (id ∷ ids) invoice = notified n invoice

invoice_after :
    (n : PaymentStatusNotification) (ids : List Uuid) (invoice : InvoiceOrm) (db : Db)
    → get_by_id (λ row. row.id) n.invoice_id db.invoices ≡ some invoice
    → get_by_id (λ row. row.id) n.invoice_id (outcome n ids invoice db).invoices
      ≡ some (after n ids invoice)
invoice_after n [] invoice db found = found
invoice_after n (id ∷ ids) invoice db found =
    subst
      (λ k.
        get_by_id (λ row. row.id) n.invoice_id
          (update_by_id (λ row. row.id) k
            (with_invoice_status (next_invoice_status n.status invoice.status)) db.invoices)
        ≡ some (notified n invoice))
      (sym (get_by_id-id (λ row. row.id) n.invoice_id db.invoices invoice found))
      (get-update (λ row. row.id) n.invoice_id
        (with_invoice_status (next_invoice_status n.status invoice.status)) db.invoices invoice
        (λ row. refl) found)

-- The payments that a notification names are the same after it.
named_same :
    (n : PaymentStatusNotification) (p : PaymentOrm → Bool) (status : String) (invoice_id : Uuid)
    (rows : List PaymentOrm)
    → named n (payments_of invoice_id (update_where p (with_payment_status status) rows))
      ≡ named n (payments_of invoice_id rows)
unfolding payments_of
named_same n p status invoice_id [] = refl
named_same n p status invoice_id (row ∷ rows) =
    ground (arith, named_same n p status invoice_id rows)

named-after :
    (n : PaymentStatusNotification) (ids : List Uuid) (invoice : InvoiceOrm) (db : Db)
    → named n (payments_of (after n ids invoice).id (outcome n ids invoice db).payments)
      ≡ named n (payments_of invoice.id db.payments)
named-after n [] invoice db = refl
named-after n (id ∷ ids) invoice db =
    named_same n (λ row. contains row.id (id ∷ ids)) n.status invoice.id db.payments

outcome_twice :
    (n : PaymentStatusNotification) (ids : List Uuid) (invoice : InvoiceOrm) (db : Db)
    → outcome n ids (after n ids invoice) (outcome n ids invoice db) ≡ outcome n ids invoice db
outcome_twice n [] invoice db = refl
outcome_twice n (id ∷ ids) invoice db = outcome-outcome n id ids (id ∷ ids) invoice db ∙ λ i.
    record (outcome n (id ∷ ids) invoice db) {
      payments =
          update_where_ext (λ row. contains row.id ((id ∷ ids) ++ id ∷ ids))
            (λ row. contains row.id (id ∷ ids)) (with_payment_status n.status) db.payments
            (λ row. contains-append row.id (id ∷ ids) (id ∷ ids) ∙ ground arith) i;
    }

-- A notification of an invoice on file that comes a second time returns, and changes nothing more.
pub update_payment_status_idem :
    (n : PaymentStatusNotification) (w : World) (invoice : InvoiceOrm)
    → get_by_id (λ row. row.id) n.invoice_id w.db.invoices ≡ some invoice
    → let (_, w') = update_payment_status n w in update_payment_status n w' ≡ (ok tt, w')
update_payment_status_idem n w invoice found =
    let ids = named n (payments_of invoice.id w.db.payments) in
    let once = outcome n ids invoice w.db in
    let w' = record w { db = once } in
    rw (update_payment_status-outcome n w invoice found) (
      update_payment_status-outcome n w' (after n ids invoice)
        (invoice_after n ids invoice w.db found)
      ∙ ap (λ l. (ok tt, record w { db = outcome n l (after n ids invoice) once }))
          (named-after n ids invoice w.db)
      ∙ ap (λ db. (ok tt, record w { db = db })) (outcome_twice n ids invoice w.db))
