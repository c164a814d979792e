-- ===== src/Order/Payment/Tests.antt =====
-- Tests of the notifications of the bank, and instances of the theorems about them.
use fast_api_example.Prelude.{pos, ℕ, String, ◌≡◌, refl, inr, true, none, some, [], ◌∷◌}
use fast_api_example.Database.{BaseOrm, empty_db, PaymentOrm, InvoiceOrm, OrderOrm}
use fast_api_example.App.{World, ok, get_by_id}
use fast_api_example.Tinkoff.{PaymentStatusNotification}
use fast_api_example.Order.Constants.{payment_to_invoice_status}
use fast_api_example.Order.Payment.{
  payment_loop, apply_notification, set_order_status, next_invoice_status, next_order_status,
  update_payment_status, payments_of, with_order_status,
}
use fast_api_example.Order.Payment.Outcome.{named, outcome, update_payment_status-outcome}
use fast_api_example.Order.Payment.Repeat.{update_payment_status_idem}
use fast_api_example.Order.Payment.Statuses.{IsKeptOrAccepted, order_changes, order_accepted}

abbrev base_of : ℕ → BaseOrm
base_of id = record { id = id; created_at = 0; updated_at = none }

abbrev order_of : String → OrderOrm
order_of status = record {
  base = base_of 1;
  user_id = 9;
  preorder_id = none;
  delivery_id = none;
  status = status;
}

abbrev invoice_of : String → InvoiceOrm
invoice_of status = record {
  base = base_of 2;
  order_id = 1;
  order_item_id = none;
  credit_part_index = none;
  title = "Оплата заказа";
  type = "INITIAL";
  amount = pos 100;
  status = status;
}

abbrev payment_of : String → PaymentOrm
payment_of status = record {
  base = base_of 3;
  invoice_id = 2;
  url = "https://bank";
  status = status;
  external_id = pos 77;
}

abbrev world : String → String → String → World
world order invoice payment = record {
  db = record empty_db {
    orders = order_of order ∷ [];
    invoices = invoice_of invoice ∷ [];
    payments = payment_of payment ∷ [];
  };
  web = record { cart = none; checkout_data = none };
  user = none;
  drawn = 0;
  asked = [];
}

abbrev notify : String → PaymentStatusNotification
notify status = record {
  token = none;
  amount = pos 10000;
  card_id = pos 5;
  error_code = "0";
  exp_date = "1230";
  invoice_id = 2;
  pan = "*";
  payment_id = pos 77;
  status = status;
  success = true;
}

confirmed_pays :
    update_payment_status (notify "CONFIRMED") (world "UNPAID" "UNPAID" "NEW")
    ≡ (ok tt, world "ACCEPTED" "PAID" "CONFIRMED")
unfolding update_payment_status payment_loop payments_of apply_notification set_order_status
    next_invoice_status next_order_status
confirmed_pays = refl

-- A refund of a finished order.
refund_reopens :
    update_payment_status (notify "REFUNDED") (world "FINISHED" "PAID" "CONFIRMED")
    ≡ (ok tt, world "ACCEPTED" "PAID" "REFUNDED")
unfolding update_payment_status payment_loop payments_of apply_notification set_order_status
    next_invoice_status next_order_status
refund_reopens = refl

update_payment_status-outcome_example :
    update_payment_status (notify "AUTHORIZED") (world "UNPAID" "UNPAID" "NEW") ≡ (
      ok tt,
      record (world "UNPAID" "UNPAID" "NEW") {
        db =
            outcome
              (notify "AUTHORIZED")
              (named (notify "AUTHORIZED") (payments_of 2 (payment_of "NEW" ∷ [])))
              (invoice_of "UNPAID")
              (world "UNPAID" "UNPAID" "NEW").db;
      },
    )
update_payment_status-outcome_example =
    update_payment_status-outcome (notify "AUTHORIZED") (world "UNPAID" "UNPAID" "NEW")
      (invoice_of "UNPAID") refl

update_payment_status_idem_example :
    let (_, w') = update_payment_status (notify "CONFIRMED") (world "UNPAID" "UNPAID" "NEW") in
    update_payment_status (notify "CONFIRMED") w' ≡ (ok tt, w')
update_payment_status_idem_example =
    update_payment_status_idem (notify "CONFIRMED") (world "UNPAID" "UNPAID" "NEW")
      (invoice_of "UNPAID") refl

order_changes_example :
    (order' : OrderOrm) × (get_by_id
        (λ r. r.id)
        1
        (update_payment_status (notify "CONFIRMED") (world "UNPAID" "UNPAID" "NEW")).1.db.orders
      ≡ some order')
    × IsKeptOrAccepted (notify "CONFIRMED") (invoice_of "UNPAID") (order_of "UNPAID") order'
order_changes_example =
    order_changes (notify "CONFIRMED") (world "UNPAID" "UNPAID" "NEW") (invoice_of "UNPAID") 1
      (order_of "UNPAID") refl refl

order_accepted_example :
    let (result, w') =
      update_payment_status (notify "REFUNDED") (world "FINISHED" "PAID" "CONFIRMED") in
    (result ≡ ok tt)
    × (get_by_id (λ r. r.id) 1 w'.db.orders
        ≡ some (with_order_status "ACCEPTED" (order_of "FINISHED")))
unfolding payments_of payment_to_invoice_status
order_accepted_example =
    order_accepted (notify "REFUNDED") (world "FINISHED" "PAID" "CONFIRMED") (invoice_of "PAID")
      (order_of "FINISHED") 3 [] refl refl refl refl (inr (refl, refl))
