-- ===== src/Order/Invoices/Tests.antt =====
-- Tests of the invoices of an order, and instances of the theorems about them.
use fast_api_example.Prelude.{
  ◌+ℤ◌, ◌*ℤ◌, ℤ, pos, sum_by, ℕ, ◌+◌, ◌≡◌, refl, none, some, List, [], ◌∷◌, arith,
}
use fast_api_example.Catalog.Models.{AvailableCheckoutItem, CreditPaymentPart}
use fast_api_example.Order.Invoices.{make_order_invoices_objects, credit_invoice}
use fast_api_example.Order.Invoices.Totals.{grand_total, total-fair_plans}

abbrev part_of : ℤ → CreditPaymentPart
part_of sum = record { sum = sum; deadline = "2025-01-01" }

-- Two pieces on a plan of three parts, and one piece that is paid at once.
abbrev cart : List AvailableCheckoutItem
cart =
    record {
      short = record { id = 7; quantity = pos 2 };
      preorder_id = none;
      price = pos 100;
      title = "figure";
      credit_parts = some (part_of (pos 50) ∷ part_of (pos 30) ∷ part_of (pos 20) ∷ []);
    }
    ∷ record {
      short = record { id = 8; quantity = pos 1 };
      preorder_id = none;
      price = pos 9;
      title = "card";
      credit_parts = none;
    }
    ∷ []

abbrev draws : ℕ → ℕ
draws n = n + 1000

deposit_and_parts :
    let (invoices, drawn) = make_order_invoices_objects draws cart (7 ∷ []) 0 in
    (invoices.initial_invoice.amount ≡ pos 109)
    × (invoices.credit_invoices
        ≡ (
          7,
          credit_invoice draws 0 1 (part_of (pos 30)) (pos 2)
              ∷ credit_invoice draws 1 2 (part_of (pos 20)) (pos 2)
              ∷ [],
        )
          ∷ [])
    × (drawn ≡ 3)
unfolding make_order_invoices_objects ◌+ℤ◌ ◌*ℤ◌
deposit_and_parts = (refl, refl, refl)

total-fair_plans_example :
    grand_total (make_order_invoices_objects draws cart (7 ∷ []) 0).0
    ≡ sum_by (λ item. item.price *ℤ item.quantity) cart
unfolding ◌+ℤ◌ ◌*ℤ◌
total-fair_plans_example = total-fair_plans draws cart (7 ∷ []) 0 (omega arith) (refl, (refl, tt))
