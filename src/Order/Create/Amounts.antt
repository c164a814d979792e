-- ===== src/Order/Create/Amounts.antt =====
-- What the bank is asked for (src/services/order/service.py), beside the invoice that is paid.
use fast_api_example.Prelude.{
  ◌*ℤ◌, ℤ, pos, add_mul, zero-*ℤ, *ℤ_comm, *ℤ_assoc, All, sum_by, ℕ, ◌≡◌, refl, sym, ap, ◌∙◌, List,
  [], ◌∷◌, map,
}
use fast_api_example.Database.{Uuid, Instant}
use fast_api_example.App.{UserIdentity}
use fast_api_example.Catalog.Models.{AvailableCheckoutItem, amount_converted, price_converted}
use fast_api_example.Order.Invoices.{make_order_invoices_objects}
use fast_api_example.Order.Invoices.Totals.{
  Distinct, HasFairPlan, grand_total, total-no_credit, total-fair_plans,
}
use fast_api_example.Order.Create.{receipt_item, payment_request}

abbrev pub cart_price : List AvailableCheckoutItem → ℤ
cart_price = sum_by (λ item. item.price *ℤ item.quantity)

-- The amount of a request is the sum over its receipt, a hundred times the price of the cart, and
-- on each line of the receipt the amount is the price times the quantity.
pub amount-payment_request :
    (user : UserIdentity) (items : List AvailableCheckoutItem) (initial_id order_id : Uuid)
    (due_date : Instant)
    → let request = payment_request user items initial_id order_id due_date in
      (request.amount ≡ cart_price items *ℤ pos 100)
      × (request.amount ≡ sum_by (λ line. line.amount) request.receipt.items)
      × All (λ line. line.amount ≡ line.price *ℤ line.quantity) request.receipt.items
unfolding payment_request amount_converted price_converted
amount-payment_request user items initial_id order_id due_date = (total items, refl, lines items)
  where
    total :
        (l : List AvailableCheckoutItem)
        → sum_by (λ line. line.amount) (map receipt_item l) ≡ cart_price l *ℤ pos 100
    total [] = rw zero-*ℤ
    total (item ∷ l) = rw (add_mul, total l) refl

    swap : (a b c : ℤ) → a *ℤ b *ℤ c ≡ a *ℤ c *ℤ b
    swap a b c = *ℤ_assoc a b c ∙ ap (λ t. a *ℤ t) (*ℤ_comm b c) ∙ sym (*ℤ_assoc a c b)

    lines :
        (l : List AvailableCheckoutItem)
        → All (λ line. line.amount ≡ line.price *ℤ line.quantity) (map receipt_item l)
    lines [] = tt
    lines (item ∷ l) = (swap item.price item.quantity (pos 100), lines l)

-- With no item on credit the bank is asked for a hundred times the invoice that is paid.
pub asks_initial_invoice :
    (uuid4 : ℕ → Uuid) (user : UserIdentity) (items : List AvailableCheckoutItem) (drawn : ℕ)
    (initial_id order_id : Uuid) (due_date : Instant)
    → (payment_request user items initial_id order_id due_date).amount
      ≡ (make_order_invoices_objects uuid4 items [] drawn).0.initial_invoice.amount *ℤ pos 100
asks_initial_invoice uuid4 user items drawn initial_id order_id due_date =
    (amount-payment_request user items initial_id order_id due_date).0
    ∙ ap (λ t. t *ℤ pos 100) (sym (total-no_credit uuid4 items drawn).1)

-- Whichever items are bought on credit, the bank is asked at once for a hundred times the total of
-- all invoices of the order, the later credit invoices included, if no two items have one
-- identifier and the parts of each credit plan add up to the price of its item.
pub asks_grand_total :
    (uuid4 : ℕ → Uuid) (user : UserIdentity) (items : List AvailableCheckoutItem) (ids : List Uuid)
    (drawn : ℕ) (initial_id order_id : Uuid) (due_date : Instant)
    → Distinct items
    → All HasFairPlan items
    → (payment_request user items initial_id order_id due_date).amount
      ≡ grand_total (make_order_invoices_objects uuid4 items ids drawn).0 *ℤ pos 100
asks_grand_total uuid4 user items ids drawn initial_id order_id due_date distinct fair =
    (amount-payment_request user items initial_id order_id due_date).0
    ∙ ap (λ t. t *ℤ pos 100) (sym (total-fair_plans uuid4 items ids drawn distinct fair))
