-- ===== src/Order/Read/Owner.antt =====
-- Whose orders `get_user_order` (src/services/order/service.py) shows.
use fast_api_example.Prelude.{
  ◌==◌, Bool-cases, Option-cases, filter, ◌≡◌, refl, ◌≢◌, inl, inr, false, none, some, arith,
}
use fast_api_example.Errors.{raise_class, forbidden}
use fast_api_example.Database.{Uuid, Db, OrderOrm}
use fast_api_example.App.{World, Result-cases, ok, err, get_by_id, ◌>>=◌}
use fast_api_example.Order.Models.{Order}
use fast_api_example.Order.Read.{
  Reading, referred, order_items, shown_invoices, tracking_of, order_of, shown_order,
  get_user_order,
}

-- What is shown is made of this row.
abbrev pub IsShown : Reading → OrderOrm → Order → Type 0
IsShown reading row shown =
    (made : Order) × (reading.order made ≡ ok shown)
    × (made.id ≡ row.id)
    × (made.status ≡ row.status)

shown_order-ok :
    (reading : Reading) (db : Db) (row : OrderOrm) (shown : Order)
    → shown_order reading db row ≡ ok shown
    → IsShown reading row shown
unfolding shown_order order_of
shown_order-ok reading db row shown h =
    elim (Result-cases
      (order_items reading db (filter (λ item. item.order_id == row.id) db.order_items))) [
        | inr (e, bad) ↦ absurd (ground arith)
        | inl (items, e1) ↦
            (elim (Option-cases (referred (λ r. r.id) row.preorder_id db.preorders)) [
              | inl bad ↦ absurd (ground arith)
              | inr (preorder, e2) ↦
                  (elim (Result-cases
                    (shown_invoices (filter (λ inv. inv.order_id == row.id) db.invoices))) [
                      | inr (e, bad) ↦ absurd (ground arith)
                      | inl (invoices, e3) ↦
                          (elim (Result-cases
                            (tracking_of (referred (λ r. r.id) row.delivery_id db.deliveries))) [
                              | inr (e, bad) ↦ absurd (ground arith)
                              | inl (tracking, e4) ↦ (
                                order_of reading row items preorder
                                    (referred (λ r. r.id) row.delivery_id db.deliveries) invoices
                                    tracking,
                                ground arith,
                                refl,
                                refl,
                              )
                            ])
                    ])
            ])
      ]

no_preorder :
    (reading : Reading) (db : Db) (row : OrderOrm) (shown : Order)
    → row.preorder_id ≡ none
    → shown_order reading db row ≢ ok shown
unfolding shown_order referred
no_preorder reading db row shown e h =
    elim (Result-cases
      (order_items reading db (filter (λ item. item.order_id == row.id) db.order_items))) [
        | inr (x, bad) ↦ ground arith
        | inl (items, e1) ↦ ground arith
      ]

-- An order is shown to its user only: where `get_user_order` answers, the order is on file, the
-- user who asks is its user, it has a preorder, what is shown is made of the identifier and the
-- status of its row, and nothing is changed.
pub get_user_order-owner :
    (reading : Reading) (order_id user_id : Uuid) (w w' : World) (shown : Order)
    → get_user_order reading order_id user_id w ≡ (ok shown, w')
    → (row : OrderOrm) × (get_by_id (λ r. r.id) order_id w.db.orders ≡ some row)
      × (row.user_id ≡ user_id)
      × (row.preorder_id ≢ none)
      × IsShown reading row shown
      × (w' ≡ w)
unfolding get_user_order ◌>>=◌
get_user_order-owner reading order_id user_id w w' shown h =
    elim (Option-cases (get_by_id (λ r. r.id) order_id w.db.orders)) [
      | inl missing ↦ absurd (ground arith)
      | inr (row, found) ↦ (elim (Bool-cases (row.user_id == user_id)) [
        | inr other ↦ absurd (ground arith)
        | inl own ↦
            (let made : shown_order reading w.db row ≡ ok shown = ground arith in
              (
                row,
                found,
                ground arith,
                (λ e. no_preorder reading w.db row shown e made),
                shown_order-ok reading w.db row shown made,
                ground arith,
              ))
      ])
    ]

-- Any other user is refused with `ForbiddenError`, and nothing is changed.
pub get_user_order-forbidden :
    (reading : Reading) (order_id user_id : Uuid) (w : World) (row : OrderOrm)
    → get_by_id (λ r. r.id) order_id w.db.orders ≡ some row
    → row.user_id ≢ user_id
    → get_user_order reading order_id user_id w ≡ (err (raise_class forbidden), w)
unfolding get_user_order ◌>>=◌
get_user_order-forbidden reading order_id user_id w row found other =
    let no : row.user_id == user_id ≡ false = ground arith in rw (found, no) refl
