-- ===== src/Order/Invoices/Credits.antt =====
-- Which credit invoices `make_order_invoices_objects` (src/services/order/utils.py) files for an
-- item of the cart.
use fast_api_example.Prelude.{ℤ, ℕ, ◌≡◌, Option, none, some, List, ◌∷◌}
use fast_api_example.Database.{Uuid}
use fast_api_example.App.{NewInvoice}
use fast_api_example.Catalog.Models.{CreditPaymentPart}
use fast_api_example.Order.Invoices.{get}
use fast_api_example.Order.Invoices.Shape.{credit_run}

module _ (uuid4 : ℕ → Uuid) where
  -- The entry of an item: the invoices of its parts from the second on, with the numbers 1, 2, …,
  -- drawn one after another; none for an item that has no part.
  abbrev pub HasCredits :
      Option (List CreditPaymentPart) → Uuid → ℤ → List (Uuid × List NewInvoice) → Type 0
  HasCredits (some (part ∷ parts)) id quantity credits =
      (n : ℕ) × (get id credits ≡ some (credit_run uuid4 quantity 1 n parts))
  HasCredits _ id quantity credits = get id credits ≡ none
