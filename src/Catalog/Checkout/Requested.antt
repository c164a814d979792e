-- ===== src/Catalog/Checkout/Requested.antt =====
-- How `verify_checkout_data` (src/services/catalog/service.py) answers the items of a request.
use fast_api_example.Prelude.{
  ℤ, pos, ltb_ℤ, min_ℤ, Option-cases, ◌≡◌, refl, sym, ap, ◌∙◌, ◌≢◌, ◌⊎◌, inl, inr, true, some, List,
  [], ◌∷◌, ◌++◌, append-nil, append_assoc, arith,
}
use fast_api_example.App.{Result-cases, Env, ok}
use fast_api_example.Catalog.Models.{
  CatalogItemQuantity, ShortCheckoutItem, AvailableCheckoutItem, CheckoutData,
  CatalogItemCheckoutDataDto, available, truthy,
}
use fast_api_example.Catalog.Checkout.{
  max_cart_item_quantity, shortage, optional_parts, verify_item, verify_loop, find_dto,
}
use fast_api_example.Catalog.Checkout.Items.{IsPassed, shortage-none}

limit_of_zero :
    (dto : CatalogItemCheckoutDataDto) (left : ℤ)
    → available dto ≡ some left
    → dto.total ≢ some (pos 0)
unfolding available truthy
limit_of_zero dto left h e = ground (arith, h, e)

-- An item that is cut down was asked for in more pieces than are left, and is cut to what is left,
-- and at most to the limit of a cart.
abbrev pub IsCutFrom : List CatalogItemCheckoutDataDto → ℤ → ShortCheckoutItem → Type 0
IsCutFrom dtos quantity item =
    (dto : CatalogItemCheckoutDataDto) × (left : ℤ) × (find_dto item.id dtos ≡ some dto)
    × (available dto ≡ some left)
    × (dto.total ≢ some (pos 0))
    × (ltb_ℤ left quantity ≡ true)
    × (item.quantity ≡ min_ℤ left max_cart_item_quantity)

module _ (P : AvailableCheckoutItem → Type 0) (Q : ℤ → ShortCheckoutItem → Type 0) where
  -- The items of a request, one after another, are answered by the next available item, with the
  -- quantity asked for, or by the next adjusted item, and nothing else is answered.
  abbrev pub Answers :
      List CatalogItemQuantity → List AvailableCheckoutItem → List ShortCheckoutItem → Type 0
  Answers [] passed cut = (passed ≡ []) × (cut ≡ [])
  Answers (item ∷ items) passed cut =
      ((first : AvailableCheckoutItem) × (rest : List AvailableCheckoutItem) × (passed
          ≡ first ∷ rest)
        × (first.id ≡ item.id)
        × (first.quantity ≡ item.quantity)
        × P first
        × Answers items rest cut)
      ⊎ ((first : ShortCheckoutItem) × (rest : List ShortCheckoutItem) × (cut ≡ first ∷ rest)
          × (first.id ≡ item.id)
          × Q item.quantity first
          × Answers items passed rest)

pub Answers-map :
    (P P' : AvailableCheckoutItem → Type 0) (Q Q' : ℤ → ShortCheckoutItem → Type 0)
    → ((item : AvailableCheckoutItem) → P item → P' item)
    → ((quantity : ℤ) (item : ShortCheckoutItem) → Q quantity item → Q' quantity item)
    → (items : List CatalogItemQuantity) (passed : List AvailableCheckoutItem)
      (cut : List ShortCheckoutItem)
    → Answers P Q items passed cut
    → Answers P' Q' items passed cut
Answers-map P P' Q Q' f g [] passed cut h = h
Answers-map P P' Q Q' f g (item ∷ items) passed cut (inl (first, rest, e, id, n, p, more)) =
    inl (first, rest, e, id, n, f first p, Answers-map P P' Q Q' f g items rest cut more)
Answers-map P P' Q Q' f g (item ∷ items) passed cut (inr (first, rest, e, id, q, more)) =
    inr (
      first,
      rest,
      e,
      id,
      g item.quantity first q,
      Answers-map P P' Q Q' f g items passed rest more,
    )

module _ (env : Env) (dtos : List CatalogItemCheckoutDataDto) where
  shortage-some_more :
      (dto : CatalogItemCheckoutDataDto) (quantity left : ℤ)
      → shortage dto quantity ≡ some left
      → (available dto ≡ some left) × (ltb_ℤ left quantity ≡ true)
  unfolding shortage
  shortage-some_more dto quantity left h = ground arith

  -- What a round of the loop adds.
  verify_item-added :
      (dto : CatalogItemCheckoutDataDto) (item : CatalogItemQuantity)
      (result result' : CheckoutData)
      → find_dto item.id dtos ≡ some dto
      → verify_item env dto item result ≡ ok result'
      → ((made : AvailableCheckoutItem) × (result'.available_items
            ≡ result.available_items ++ made ∷ [])
          × (result'.adjusted_items ≡ result.adjusted_items)
          × (made.id ≡ item.id)
          × (made.quantity ≡ item.quantity)
          × IsPassed dtos made)
        ⊎ ((made : ShortCheckoutItem) × (result'.available_items ≡ result.available_items)
            × (result'.adjusted_items ≡ result.adjusted_items ++ made ∷ [])
            × (made.id ≡ item.id)
            × IsCutFrom dtos item.quantity made)
  unfolding verify_item
  verify_item-added dto item result result' found h =
      elim (Option-cases (shortage dto item.quantity)) [
        | inr (left, e) ↦
            (let (there, more) = shortage-some_more dto item.quantity left e in
              let made : ShortCheckoutItem = record {
                id = item.id;
                quantity = min_ℤ left max_cart_item_quantity;
              } in
              inr (
                made,
                ground arith,
                ground arith,
                refl,
                (dto, left, found, there, limit_of_zero dto left there, more, refl),
              ))
        | inl e ↦ (elim (Result-cases (optional_parts env dto.credit_parts)) [
          | inr (x, bad) ↦ absurd (ground arith)
          | inl (parts, good) ↦
              (let made : AvailableCheckoutItem = record {
                short = record { id = item.id; quantity = item.quantity };
                preorder_id = dto.preorder_id;
                price = dto.price;
                title = dto.title;
                credit_parts = parts;
              } in
                inl (
                  made,
                  ground arith,
                  ground arith,
                  refl,
                  refl,
                  (dto, found, shortage-none dto dto.total item.quantity refl e, refl, refl, refl),
                ))
        ])
      ]

  -- What the loop adds answers the items, in their order.
  pub verify_loop-Answers :
      (items : List CatalogItemQuantity) (result result' : CheckoutData)
      → verify_loop env dtos items result ≡ ok result'
      → (passed : List AvailableCheckoutItem) × (cut : List ShortCheckoutItem)
        × (result'.available_items ≡ result.available_items ++ passed)
        × (result'.adjusted_items ≡ result.adjusted_items ++ cut)
        × Answers (IsPassed dtos) (IsCutFrom dtos) items passed cut
  unfolding verify_loop
  verify_loop-Answers [] result result' h =
      let same : result ≡ result' = ground arith in
      (
        [],
        [],
        ap (λ r. r.available_items) (sym same) ∙ sym (append-nil result.available_items),
        ap (λ r. r.adjusted_items) (sym same) ∙ sym (append-nil result.adjusted_items),
        (refl, refl),
      )
  verify_loop-Answers (item ∷ items) result result' h =
      elim (Option-cases (find_dto item.id dtos)) [
        | inl missing ↦ absurd (ground arith)
        | inr (dto, found) ↦ (elim (Result-cases (verify_item env dto item result)) [
          | inr (e, bad) ↦ absurd (ground arith)
          | inl (next, good) ↦
              (let (passed, cut, av, ad, rest) =
                  verify_loop-Answers items next result' (ground arith) in
                elim (verify_item-added dto item result next found good) [
                  | inl (made, more, same, id, n, p) ↦ (
                    made ∷ passed,
                    cut,
                    av
                        ∙ (ap (λ l. l ++ passed) more
                            ∙ append_assoc result.available_items (made ∷ []) passed),
                    ad ∙ ap (λ l. l ++ cut) same,
                    inl (made, passed, refl, id, n, p, rest),
                  )
                  | inr (made, same, more, id, q) ↦ (
                    passed,
                    made ∷ cut,
                    av ∙ ap (λ l. l ++ passed) same,
                    ad
                        ∙ (ap (λ l. l ++ cut) more
                            ∙ append_assoc result.adjusted_items (made ∷ []) cut),
                    inr (made, cut, refl, id, q, rest),
                  )
                ])
        ])
      ]
