-- ===== src/Order/Invoices/Totals.antt =====
-- The amounts of `make_order_invoices_objects` (src/services/order/utils.py) add up to what the
-- items cost.
use fast_api_example.Prelude.{
  ◌+ℤ◌, ◌*ℤ◌, ℤ, pos, *ℤ_parts, int_laws, add_mul, zero-*ℤ, ◌==◌, Bool-cases, All, sum_by, ℕ, suc,
  ◌+◌, ◌≡◌, refl, sym, ap, ◌∙◌, ◌≢◌, inl, inr, Option, none, some, List, [], ◌∷◌, arith,
}
use fast_api_example.Database.{Uuid}
use fast_api_example.App.{NewInvoice}
use fast_api_example.Catalog.Models.{AvailableCheckoutItem, CreditPaymentPart}
use fast_api_example.Order.Invoices.{
  OrderInvoices, credit_invoice, item_step, parts_step, item_loop, put, get,
  make_order_invoices_objects, initial_invoice_of,
}
use fast_api_example.Order.Invoices.Shape.{credit_run, part_loop_lem, sorted_run}

-- What an item costs in all: by its credit plan where it has one with a part, else its price.
abbrev pub due_by : Option (List CreditPaymentPart) → ℤ → ℤ → ℤ
due_by none price quantity = price *ℤ quantity
due_by (some []) price quantity = price *ℤ quantity
due_by (some (part ∷ parts)) price quantity = sum_by (λ p. p.sum) (part ∷ parts) *ℤ quantity

abbrev pub due : AvailableCheckoutItem → ℤ
due item = due_by item.credit_parts item.price item.quantity

abbrev pub invoices_total : List NewInvoice → ℤ
invoices_total = sum_by (λ invoice. invoice.amount)

abbrev pub credits_total : List (Uuid × List NewInvoice) → ℤ
credits_total = sum_by (λ entry. invoices_total entry.1)

-- The amounts of all invoices of the dictionary.
abbrev pub grand_total : OrderInvoices → ℤ
grand_total invoices = invoices.initial_invoice.amount +ℤ credits_total invoices.credit_invoices

-- No two items have one identifier.
abbrev pub Distinct : List AvailableCheckoutItem → Type 0
Distinct [] = Unit
Distinct (item ∷ items) = All (λ other. other.id ≢ item.id) items × Distinct items

abbrev pub Fresh : List (Uuid × List NewInvoice) → List AvailableCheckoutItem → Type 0
Fresh credits = All (λ item. get item.id credits ≡ none)

pub get-put_ne :
    {V : Type 0} (j k : Uuid) (v : V) (d : List (Uuid × V)) → j ≢ k → get j (put k v d) ≡ get j d
unfolding get put
get-put_ne j k v [] h = ground arith
get-put_ne j k v (e ∷ d) h = ground (arith, get-put_ne j k v d h)

Fresh-put :
    (k : Uuid) (v : List NewInvoice) (d : List (Uuid × List NewInvoice))
    (items : List AvailableCheckoutItem)
    → All (λ other. other.id ≢ k) items
    → Fresh d items
    → Fresh (put k v d) items
Fresh-put k v d [] ne h = tt
Fresh-put k v d (item ∷ items) ne h =
    (get-put_ne item.id k v d ne.0 ∙ h.0, Fresh-put k v d items ne.1 h.1)

credits_total-put :
    (k : Uuid) (v : List NewInvoice) (d : List (Uuid × List NewInvoice))
    → get k d ≡ none
    → credits_total (put k v d) ≡ credits_total d +ℤ invoices_total v
unfolding get put
credits_total-put k v [] h = omega int_laws
credits_total-put k v ((j, w) ∷ d) h = elim (Bool-cases (k == j)) [
  | inl same ↦ cc (rw same at h)
  | inr other ↦ rw other (rw (credits_total-put k v d (rw other at h)) (omega int_laws))
]

module _ (uuid4 : ℕ → Uuid) where
  total-credit_run :
      (quantity : ℤ) (index drawn : ℕ) (parts : List CreditPaymentPart)
      → invoices_total (credit_run uuid4 quantity index drawn parts)
        ≡ sum_by (λ p. p.sum) parts *ℤ quantity
  unfolding credit_invoice
  total-credit_run quantity index drawn [] = rw zero-*ℤ
  total-credit_run quantity index drawn (part ∷ parts) =
      rw (add_mul, total-credit_run quantity (suc index) (drawn + 1) parts)

  -- The sum and the dictionary's total after an item, of those before it.
  step_total :
      (parts : Option (List CreditPaymentPart)) (item : AvailableCheckoutItem) (sum : ℤ)
      (credits : List (Uuid × List NewInvoice)) (drawn : ℕ)
      → get item.id credits ≡ none
      → let (sum', credits', _) = parts_step uuid4 parts item (sum, credits, drawn) in
        sum' +ℤ credits_total credits'
        ≡ sum +ℤ credits_total credits +ℤ due_by parts item.price item.quantity
  unfolding parts_step
  step_total (some (part ∷ parts)) item sum credits drawn h =
      rw
        (
          part_loop_lem uuid4 item.quantity part parts
              (record { initial_sum = sum; item_invoices = []; drawn = drawn }) refl,
          sorted_run uuid4 item.quantity 1 drawn parts,
          credits_total-put item.id (credit_run uuid4 item.quantity 1 drawn parts) credits h,
          total-credit_run item.quantity 1 drawn parts,
          add_mul,
        )
        (omega int_laws)
  step_total (some []) item sum credits drawn h = omega int_laws
  step_total none item sum credits drawn h = omega int_laws

  pub step_Fresh :
      (parts : Option (List CreditPaymentPart)) (item : AvailableCheckoutItem) (sum : ℤ)
      (credits : List (Uuid × List NewInvoice)) (drawn : ℕ) (items : List AvailableCheckoutItem)
      → All (λ other. other.id ≢ item.id) items
      → Fresh credits items
      → Fresh (parts_step uuid4 parts item (sum, credits, drawn)).1 items
  unfolding parts_step
  step_Fresh (some (part ∷ parts)) item sum credits drawn items ne h =
      Fresh-put item.id _ credits items ne h
  step_Fresh (some []) item sum credits drawn items ne h = h
  step_Fresh none item sum credits drawn items ne h = h

  loop_total :
      (items : List AvailableCheckoutItem) (sum : ℤ) (credits : List (Uuid × List NewInvoice))
      (drawn : ℕ)
      → Distinct items
      → Fresh credits items
      → let (sum', credits', _) = item_loop uuid4 items (sum, credits, drawn) in
        sum' +ℤ credits_total credits' ≡ sum +ℤ credits_total credits +ℤ sum_by due items
  unfolding item_loop item_step
  loop_total [] sum credits drawn ne h = omega int_laws
  loop_total (item ∷ items) sum credits drawn ne h =
      let (sum', credits', drawn') =
        parts_step uuid4 item.credit_parts item (sum, credits, drawn) in
      loop_total items sum' credits' drawn' ne.1
        (step_Fresh item.credit_parts item sum credits drawn items ne.0 h.1)
      ∙ rw (step_total item.credit_parts item sum credits drawn h.0) (omega int_laws)

  pub Fresh-nil : (items : List AvailableCheckoutItem) → Fresh [] items
  unfolding get
  Fresh-nil [] = tt
  Fresh-nil (item ∷ items) = (refl, Fresh-nil items)

  -- With no item on credit there is one invoice, over the price of the whole cart.
  pub total-no_credit :
      (items : List AvailableCheckoutItem) (drawn : ℕ)
      → let (invoices, _) = make_order_invoices_objects uuid4 items [] drawn in
        (invoices.credit_invoices ≡ [])
        × (invoices.initial_invoice.amount ≡ sum_by (λ item. item.price *ℤ item.quantity) items)
  unfolding make_order_invoices_objects initial_invoice_of
  total-no_credit items drawn = (refl, refl)

  -- If an identifier stands in the list of credit items, and no two items of the cart have one
  -- identifier, the invoices of the order add up to what its items cost: the parts of the credit
  -- plan times the quantity for an item that has a part, the price times the quantity for others.
  pub total-with_credit :
      (items : List AvailableCheckoutItem) (id : Uuid) (ids : List Uuid) (drawn : ℕ)
      → Distinct items
      → grand_total (make_order_invoices_objects uuid4 items (id ∷ ids) drawn).0 ≡ sum_by due items
  unfolding make_order_invoices_objects initial_invoice_of
  total-with_credit items id ids drawn distinct =
      loop_total items (pos 0) [] drawn distinct (Fresh-nil items) ∙ omega int_laws

-- The parts of the item's credit plan, where it has one, add up to its price.
abbrev pub HasFairPlan : AvailableCheckoutItem → Type 0
HasFairPlan item = due_by item.credit_parts item.price (pos 1) ≡ item.price

mul_one : (a : ℤ) → a *ℤ pos 1 ≡ a
mul_one a = omega (int_laws, *ℤ_parts a (pos 1))

due_by-fair :
    (parts : Option (List CreditPaymentPart)) (price quantity : ℤ)
    → due_by parts price (pos 1) ≡ price
    → due_by parts price quantity ≡ price *ℤ quantity
due_by-fair none price quantity h = refl
due_by-fair (some []) price quantity h = refl
due_by-fair (some (part ∷ parts)) price quantity h =
    ap (λ (t : ℤ). t *ℤ quantity) (sym (mul_one _) ∙ h)

sum-due :
    (items : List AvailableCheckoutItem)
    → All HasFairPlan items
    → sum_by due items ≡ sum_by (λ item. item.price *ℤ item.quantity) items
sum-due [] h = refl
sum-due (item ∷ items) h =
    rw (due_by-fair item.credit_parts item.price item.quantity h.0, sum-due items h.1) refl

-- Buying on credit changes when a client pays, not what: if no two items of the cart have one
-- identifier, and the parts of each credit plan add up to the price of its item, then the invoices
-- of the order add up to the price of the cart, whichever items are bought on credit.
pub total-fair_plans :
    (uuid4 : ℕ → Uuid) (items : List AvailableCheckoutItem) (ids : List Uuid) (drawn : ℕ)
    → Distinct items
    → All HasFairPlan items
    → grand_total (make_order_invoices_objects uuid4 items ids drawn).0
      ≡ sum_by (λ item. item.price *ℤ item.quantity) items
total-fair_plans uuid4 items [] drawn distinct fair =
    let (no_credits, amount) = total-no_credit uuid4 items drawn in
    rw (no_credits, amount) (omega int_laws)
total-fair_plans uuid4 items (id ∷ ids) drawn distinct fair =
    total-with_credit uuid4 items id ids drawn distinct ∙ sum-due items fair
