-- ===== src/Order/Create/Tests.antt =====
-- Tests of the creation of an order, and instances of the theorems about it.
use fast_api_example.Prelude.{
  ◌+ℤ◌, ◌*ℤ◌, pos, ◌+◌, ◌≡◌, refl, true, none, some, List, [], ◌∷◌, map, arith,
}
use fast_api_example.Errors.{type_error}
use fast_api_example.Database.{empty_db}
use fast_api_example.App.{
  Env, World, UserIdentity, NewInvoice, Assigned, a_dict, a_list, a_none, Result, ok, err, ◌>>=◌,
}
use fast_api_example.Catalog.Models.{AvailableCheckoutItem}
use fast_api_example.Tinkoff.Client.{init_payment}
use fast_api_example.Order.Invoices.{make_order_invoices_objects}
use fast_api_example.Order.Invoices.Totals.{grand_total}
use fast_api_example.Order.Create.{create_order, payment_request}
use fast_api_example.Order.Filing.{new_order_items, new_order_item, new_delivery, file_order}
use fast_api_example.Order.Create.Amounts.{asks_grand_total}

abbrev buyer : UserIdentity
buyer = record {
  id = 9;
  schema_id = "customer";
  state = "active";
  email = "a@b.c";
  first_name = "A";
  last_name = "B";
  phone = "+7";
  verified = true;
  metadata_public = none;
}

abbrev figure : AvailableCheckoutItem
figure = record {
  short = record { id = 7; quantity = pos 2 };
  preorder_id = none;
  price = pos 100;
  title = "figure";
  credit_parts = some (
      record { sum = pos 60; deadline = "2025-01-01" }
      ∷ record { sum = pos 40; deadline = "2025-02-01" }
      ∷ []);
}

-- A relationship that holds a list takes a list, and refuses a dictionary and `None`.
abbrev list_only : Assigned → Result (List NewInvoice)
list_only (a_dict invoice credits) = err type_error
list_only (a_list invoices) = ok invoices
list_only a_none = err type_error

abbrev env : Env
env = record {
  uuid4 = λ n. n + 1000;
  post_init = λ request. record {
    is_success = true;
    is_filled = true;
    error_code = some "0";
    details = none;
    body = ok (record {
      terminal_key = "T";
      status = "NEW";
      payment_id = pos 77;
      order_id = request.order_id;
      amount = request.amount;
      payment_url = "https://bank/77";
    });
  };
  assign = list_only;
  payment_part = λ part. ok (record { sum = part.sum; deadline = "" });
}

-- The same with a relationship that takes all that it is given.
abbrev take_all : Assigned → Result (List NewInvoice)
take_all (a_dict invoice credits) = ok (invoice ∷ [])
take_all (a_list invoices) = ok []
take_all a_none = ok []

abbrev blank : World
blank = record {
  db = empty_db;
  web = record { cart = none; checkout_data = none };
  user = some buyer;
  drawn = 0;
  asked = [];
}

refused_by_type :
    (create_order env 5 5000001 (some buyer) [] none (figure ∷ []) blank).0 ≡ err type_error
unfolding create_order ◌>>=◌ new_delivery new_order_items new_order_item make_order_invoices_objects
refused_by_type = refl

-- Were all assignments taken, the bank would be asked once, for the whole price, and the link that
-- it returns handed on.
taken_by_all :
    let (result, w') =
      create_order
        (record env { assign = take_all })
        5
        5000001
        (some buyer)
        []
        none
        (figure ∷ [])
        blank in
    (result ≡ ok "https://bank/77")
    × (map (λ request. request.amount) w'.asked ≡ pos 20000 ∷ [])
    × (map (λ row. row.created_at) w'.db.payments ≡ 5000000 ∷ [])
    × (map (λ row. row.invoice_id) w'.db.payments ≡ 1000 ∷ [])
    × (w'.drawn ≡ 4)
unfolding create_order ◌>>=◌ new_delivery new_order_items new_order_item make_order_invoices_objects
    file_order init_payment payment_request ◌+ℤ◌ ◌*ℤ◌
taken_by_all = (refl, refl, refl, refl, refl)

asks_grand_total_example :
    (payment_request buyer (figure ∷ []) 1 2 3).amount
    ≡ grand_total (make_order_invoices_objects env.uuid4 (figure ∷ []) (7 ∷ []) 0).0 *ℤ pos 100
unfolding ◌+ℤ◌ ◌*ℤ◌
asks_grand_total_example =
    asks_grand_total env.uuid4 buyer (figure ∷ []) (7 ∷ []) 0 1 2 3 (omega arith) (refl, tt)

-- The deposit is 120, and the bank is asked for 200.00.
deposit_and_request :
    ((make_order_invoices_objects env.uuid4 (figure ∷ []) (7 ∷ []) 0).0.initial_invoice.amount
      ≡ pos 120)
    × ((payment_request buyer (figure ∷ []) 1 2 3).amount ≡ pos 20000)
unfolding make_order_invoices_objects payment_request ◌+ℤ◌ ◌*ℤ◌
deposit_and_request = (refl, refl)
