-- ===== src/Order/Invoices.antt =====
-- `make_order_invoices_objects` of src/services/order/utils.py. Each `InvoiceORM` draws its
-- identifier when it is made (src/integrations/sql_alchemy/utils.py), so the number of identifiers
-- drawn goes through the loops.
pub mod Shape
pub mod Totals
pub mod Credits
mod Tests
use fast_api_example.Prelude.{
  ◌+ℤ◌, ◌*ℤ◌, ℤ, pos, ltb, ◌==◌, if◌then◌else◌, sum_by, ℕ, suc, ◌+◌, String, Option, none, some,
  List, [], ◌∷◌, ◌++◌,
}
use fast_api_example.Database.{Uuid}
use fast_api_example.App.{NewInvoice}
use fast_api_example.Catalog.Models.{AvailableCheckoutItem, CreditPaymentPart}
use fast_api_example.Order.Constants.{
  InvoiceStatus, initial, credit, invoice_status_value, invoice_type_value,
}

-- The dictionary that the function returns: the invoice under 'INITIAL', and the lists of credit
-- invoices under the texts of the items' identifiers, in the order of their first insertion.
pub record OrderInvoices : Type 0 where
  pub initial_invoice : NewInvoice
  pub credit_invoices : List (Uuid × List NewInvoice)

-- `d[k] = v`
unfoldable pub put : {V : Type 0} → Uuid → V → List (Uuid × V) → List (Uuid × V)
put k v [] = (k, v) ∷ []
put k v ((j, w) ∷ d) = if k == j then (k, v) ∷ d else (j, w) ∷ put k v d

-- `d.get(k, None)`
unfoldable pub get : {V : Type 0} → Uuid → List (Uuid × V) → Option V
get k [] = none
get k ((j, v) ∷ d) = if k == j then some v else get k d

abbrev index_key : NewInvoice → ℕ
index_key invoice = elim invoice.credit_part_index [ none ↦ 0 | some i ↦ i ]

insert_by_index : NewInvoice → List NewInvoice → List NewInvoice
insert_by_index x [] = x ∷ []
insert_by_index x (y ∷ ys) =
    if ltb (index_key y) (index_key x) then y ∷ insert_by_index x ys else x ∷ y ∷ ys

-- `sorted(item_invoices, key=lambda x: x.credit_part_index)`, which is stable
unfoldable pub sorted_by_index : List NewInvoice → List NewInvoice
unfolding insert_by_index
sorted_by_index [] = []
sorted_by_index (x ∷ xs) = insert_by_index x (sorted_by_index xs)

-- The variables of the loops.
pub record Loop : Type 0 where
  pub initial_sum : ℤ
  pub item_invoices : List NewInvoice
  pub drawn : ℕ

module _ (uuid4 : ℕ → Uuid) where
  pub credit_invoice : ℕ → ℕ → CreditPaymentPart → ℤ → NewInvoice
  unfolding invoice_type_value invoice_status_value
  credit_invoice drawn index part quantity = record {
    id = uuid4 drawn;
    credit_part_index = some index;
    title = "Оплата рассрочки";
    type = invoice_type_value credit;
    amount = part.sum *ℤ quantity;
    status = invoice_status_value InvoiceStatus.unpaid;
  }

  -- The body of `for index, part in enumerate(item.credit_parts)`.
  pub part_step : ℤ → ℕ → CreditPaymentPart → Loop → Loop
  unfolding credit_invoice
  part_step quantity index part s =
      if index == 0
      then record s { initial_sum = s.initial_sum +ℤ part.sum *ℤ quantity }
      else record s {
        item_invoices = s.item_invoices ++ credit_invoice s.drawn index part quantity ∷ [];
        drawn = s.drawn + 1;
      }

  pub part_loop : ℤ → ℕ → List CreditPaymentPart → Loop → Loop
  part_loop quantity index [] s = s
  part_loop quantity index (part ∷ parts) s =
      part_loop quantity (suc index) parts (part_step quantity index part s)

  -- The body of `for item in checkout_items`, on the sum, the dictionary and the draws; its first
  -- argument is `item.credit_parts`.
  pub parts_step :
      Option (List CreditPaymentPart)
      → AvailableCheckoutItem
      → ℤ × List (Uuid × List NewInvoice) × ℕ
      → ℤ × List (Uuid × List NewInvoice) × ℕ
  unfolding part_loop put sorted_by_index
  parts_step (some (part ∷ parts)) item (initial_sum, credits, drawn) =
      let s =
        part_loop item.quantity 0 (part ∷ parts)
          (record { initial_sum = initial_sum; item_invoices = []; drawn = drawn }) in
      (s.initial_sum, put item.id (sorted_by_index s.item_invoices) credits, s.drawn)
  parts_step _ item (initial_sum, credits, drawn) =
      (initial_sum +ℤ item.price *ℤ item.quantity, credits, drawn)

  pub item_step :
      AvailableCheckoutItem
      → ℤ × List (Uuid × List NewInvoice) × ℕ
      → ℤ × List (Uuid × List NewInvoice) × ℕ
  unfolding parts_step
  item_step item s = parts_step item.credit_parts item s

  pub item_loop :
      List AvailableCheckoutItem
      → ℤ × List (Uuid × List NewInvoice) × ℕ
      → ℤ × List (Uuid × List NewInvoice) × ℕ
  item_loop [] s = s
  item_loop (item ∷ items) s = item_loop items (item_step item s)

  pub initial_invoice_of : String → ℕ → ℤ → NewInvoice
  unfolding invoice_type_value invoice_status_value
  initial_invoice_of title drawn amount = record {
    id = uuid4 drawn;
    credit_part_index = none;
    title = title;
    type = invoice_type_value initial;
    amount = amount;
    status = invoice_status_value InvoiceStatus.unpaid;
  }

  -- `make_order_invoices_objects`, with the number of identifiers drawn before and after.
  unfoldable pub make_order_invoices_objects :
      List AvailableCheckoutItem → List Uuid → ℕ → OrderInvoices × ℕ
  unfolding item_loop item_step part_loop part_step initial_invoice_of put sorted_by_index
  make_order_invoices_objects checkout_items [] drawn = (
    record {
      initial_invoice =
          initial_invoice_of "Оплата заказа" drawn
            (sum_by (λ item. item.price *ℤ item.quantity) checkout_items);
      credit_invoices = [];
    },
    drawn + 1,
  )
  make_order_invoices_objects checkout_items (_ ∷ _) drawn =
      let (initial_sum, credits, drawn') = item_loop checkout_items (pos 0, [], drawn) in
      (
        record {
          initial_invoice = initial_invoice_of "Оплата депозита заказа" drawn' initial_sum;
          credit_invoices = credits;
        },
        drawn' + 1,
      )
