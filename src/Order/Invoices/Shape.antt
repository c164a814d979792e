-- ===== src/Order/Invoices/Shape.antt =====
-- What the loops of `make_order_invoices_objects` (src/services/order/utils.py) build, in closed
-- form: the credit invoices of an item are those of its parts from the second on, in their order.
use fast_api_example.Prelude.{
  ◌+ℤ◌, ◌*ℤ◌, ℤ, length, ℕ, suc, ◌+◌, ◌≡◌, refl, ap, ◌∙◌, List, [], ◌∷◌, ◌++◌, append-nil,
  append_assoc, arith,
}
use fast_api_example.Database.{Uuid}
use fast_api_example.App.{NewInvoice}
use fast_api_example.Catalog.Models.{CreditPaymentPart}
use fast_api_example.Order.Invoices.{
  Loop, credit_invoice, part_loop, part_step, sorted_by_index, insert_by_index,
}

module _ (uuid4 : ℕ → Uuid) where
  -- One invoice for each part, numbered from `index`.
  abbrev pub credit_run : ℤ → ℕ → ℕ → List CreditPaymentPart → List NewInvoice
  credit_run quantity index drawn [] = []
  credit_run quantity index drawn (part ∷ parts) =
      credit_invoice uuid4 drawn index part quantity
      ∷ credit_run quantity (suc index) (drawn + 1) parts

  part_loop_tail :
      (quantity : ℤ) (index : ℕ) (parts : List CreditPaymentPart) (s : Loop)
      → part_loop uuid4 quantity (suc index) parts s ≡ record {
        initial_sum = s.initial_sum;
        item_invoices = s.item_invoices ++ credit_run quantity (suc index) s.drawn parts;
        drawn = s.drawn + length parts;
      }
  unfolding part_loop part_step
  part_loop_tail quantity index [] s = rw append-nil (ground arith)
  part_loop_tail quantity index (part ∷ parts) s =
      rw (part_loop_tail quantity (suc index) parts (part_step uuid4 quantity (suc index) part s)) (
        ground (
          arith,
          append_assoc s.item_invoices (credit_invoice uuid4 s.drawn (suc index) part quantity ∷ [])
              (credit_run quantity (suc (suc index)) (s.drawn + 1) parts),
        ))

  pub part_loop_lem :
      (quantity : ℤ) (part : CreditPaymentPart) (parts : List CreditPaymentPart) (s : Loop)
      → s.item_invoices ≡ []
      → part_loop uuid4 quantity 0 (part ∷ parts) s ≡ record {
        initial_sum = s.initial_sum +ℤ part.sum *ℤ quantity;
        item_invoices = credit_run quantity 1 s.drawn parts;
        drawn = s.drawn + length parts;
      }
  unfolding part_loop part_step
  part_loop_lem quantity part parts s h =
      rw (part_loop_tail quantity 0 parts (part_step uuid4 quantity 0 part s), h) refl

  -- Sorting by the index changes nothing: the loop has numbered the invoices in order.
  pub sorted_run :
      (quantity : ℤ) (index drawn : ℕ) (parts : List CreditPaymentPart)
      → sorted_by_index (credit_run quantity index drawn parts)
        ≡ credit_run quantity index drawn parts
  unfolding sorted_by_index credit_invoice
  sorted_run quantity index drawn [] = refl
  sorted_run quantity index drawn (part ∷ []) = refl
  sorted_run quantity index drawn (part ∷ next ∷ parts) =
      ap (insert_by_index (credit_invoice uuid4 drawn index part quantity))
        (sorted_run quantity (suc index) (drawn + 1) (next ∷ parts))
      ∙ ground arith
