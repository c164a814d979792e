-- ===== src/Catalog/Checkout/Items.antt =====
-- What the loop of `verify_checkout_data` (src/services/catalog/service.py) sorts the items by.
use fast_api_example.Prelude.{
  ◌+ℤ◌, ◌-ℤ◌, ℤ, pos, negsuc, ◌≤ℤ◌, ltb_ℤ, min_ℤ, int_laws, if◌then◌else◌, Bool-cases, Option-cases,
  length, All, All-append, length-append, ℕ, zero, suc, ◌+◌, ◌≡◌, refl, ◌⊎◌, inl, inr, false,
  Option, none, some, List, [], ◌∷◌, ◌++◌, arith,
}
use mathlib.Core.Path.{subst}
use fast_api_example.App.{Result-cases, Env, ok}
use fast_api_example.Catalog.Models.{
  CatalogItemQuantity, ShortCheckoutItem, AvailableCheckoutItem, CheckoutData,
  CatalogItemCheckoutDataDto, available, truthy,
}
use fast_api_example.Catalog.Checkout.{
  max_cart_item_quantity, shortage, optional_parts, verify_item, verify_loop, find_dto,
}

-- There is room for `quantity` more pieces under the limit `total`, where there is one. A limit of
-- zero counts as none.
abbrev pub HasRoom : Option ℤ → ℤ → ℤ → Type 0
HasRoom none ordered quantity = Unit
HasRoom (some total) ordered quantity = (total ≡ pos 0) ⊎ (ordered +ℤ quantity ≤ℤ total)

truthy-false : (total : ℤ) → truthy (some total) ≡ false → total ≡ pos 0
unfolding truthy
truthy-false (pos zero) h = refl
truthy-false (pos (suc n)) h = cc
truthy-false (negsuc n) h = cc

shortage_test :
    (total ordered quantity : ℤ)
    → ltb_ℤ (total -ℤ ordered) quantity ≡ false
    → ordered +ℤ quantity ≤ℤ total
shortage_test total ordered quantity h =
    let le : quantity ≤ℤ total -ℤ ordered = ground arith in omega int_laws

-- What is available under a limit, as the property reads it.
available_of : ℤ → ℤ → Option ℤ
available_of total ordered = if truthy (some total) then some (total -ℤ ordered) else none

available-none : (dto : CatalogItemCheckoutDataDto) → dto.total ≡ none → available dto ≡ none
unfolding available
available-none dto e = rw (e, available) refl

available-some :
    (dto : CatalogItemCheckoutDataDto) (total : ℤ)
    → dto.total ≡ some total
    → available dto ≡ available_of total dto.ordered
unfolding available available_of
available-some dto total e = rw (e, available) refl

pub available_left :
    (dto : CatalogItemCheckoutDataDto) (left : ℤ)
    → available dto ≡ some left
    → (total : ℤ) × (dto.total ≡ some total) × (left ≡ total -ℤ dto.ordered)
unfolding available_of
available_left dto left h = elim (Option-cases dto.total) [
  | inl none_there ↦ absurd (ground (arith, available-none dto none_there))
  | inr (total, e) ↦ (total, e, ground (arith, available-some dto total e))
]

pub shortage-none :
    (dto : CatalogItemCheckoutDataDto) (total : Option ℤ) (quantity : ℤ)
    → dto.total ≡ total
    → shortage dto quantity ≡ none
    → HasRoom total dto.ordered quantity
unfolding shortage available_of
shortage-none dto none quantity e h = tt
shortage-none dto (some total) quantity e h = elim (Bool-cases (truthy (some total))) [
  | inr unlimited ↦ inl (truthy-false total unlimited)
  | inl limited ↦
      inr (shortage_test total dto.ordered quantity (ground (arith, available-some dto total e)))
]

-- An item that is passed on: its data are those on file, and there is room for it.
abbrev pub IsPassed : List CatalogItemCheckoutDataDto → AvailableCheckoutItem → Type 0
IsPassed dtos item =
    (dto : CatalogItemCheckoutDataDto) × (find_dto item.id dtos ≡ some dto)
    × HasRoom dto.total dto.ordered item.quantity
    × (item.price ≡ dto.price)
    × (item.title ≡ dto.title)
    × (item.preorder_id ≡ dto.preorder_id)

-- An item that is cut down: to what is left, and at most to the limit of a cart.
abbrev pub IsCut : List CatalogItemCheckoutDataDto → ShortCheckoutItem → Type 0
IsCut dtos item =
    (dto : CatalogItemCheckoutDataDto) × (left : ℤ) × (find_dto item.id dtos ≡ some dto)
    × (available dto ≡ some left)
    × (item.quantity ≡ min_ℤ left max_cart_item_quantity)

-- What holds of the result between two rounds of the loop.
abbrev pub IsSorted : List CatalogItemCheckoutDataDto → CheckoutData → Type 0
IsSorted dtos result =
    All (IsPassed dtos) result.available_items × All (IsCut dtos) result.adjusted_items

abbrev pub count : CheckoutData → ℕ
count result = length result.available_items + length result.adjusted_items

module _ (env : Env) (dtos : List CatalogItemCheckoutDataDto) where
  shortage-some :
      (dto : CatalogItemCheckoutDataDto) (quantity left : ℤ)
      → shortage dto quantity ≡ some left
      → available dto ≡ some left
  unfolding shortage
  shortage-some dto quantity left h = ground arith

  verify_item-IsSorted :
      (dto : CatalogItemCheckoutDataDto) (item : CatalogItemQuantity)
      (result result' : CheckoutData)
      → find_dto item.id dtos ≡ some dto
      → verify_item env dto item result ≡ ok result'
      → IsSorted dtos result
      → IsSorted dtos result' × (count result' ≡ count result + 1)
  unfolding verify_item
  verify_item-IsSorted dto item result result' found h sorted =
      elim (Option-cases (shortage dto item.quantity)) [
        | inr (left, e) ↦
            (let made : ShortCheckoutItem = record {
              id = item.id;
              quantity = min_ℤ left max_cart_item_quantity;
            } in
              let p : result'
                  ≡ record result { adjusted_items = result.adjusted_items ++ made ∷ [] } =
                ground arith in
              rw p (
                (
                  sorted.0,
                  All-append (IsCut dtos) result.adjusted_items (made ∷ []) sorted.1
                      ((dto, left, found, shortage-some dto item.quantity left e, refl), tt),
                ),
                omega (arith, length-append result.adjusted_items (made ∷ [])),
              ))
        | inl e ↦ (elim (Result-cases (optional_parts env dto.credit_parts)) [
          | inr (x, bad) ↦ absurd (ground arith)
          | inl (parts, good) ↦
              (let made : AvailableCheckoutItem = record {
                short = record { id = item.id; quantity = item.quantity };
                preorder_id = dto.preorder_id;
                price = dto.price;
                title = dto.title;
                credit_parts = parts;
              } in
                let p : result'
                    ≡ record result { available_items = result.available_items ++ made ∷ [] } =
                  ground arith in
                rw p (
                  (
                    All-append (IsPassed dtos) result.available_items (made ∷ []) sorted.0 (
                      (
                        dto,
                        found,
                        shortage-none dto dto.total item.quantity refl e,
                        refl,
                        refl,
                        refl,
                      ),
                      tt,
                    ),
                    sorted.1,
                  ),
                  omega (arith, length-append result.available_items (made ∷ [])),
                ))
        ])
      ]

  pub verify_loop-IsSorted :
      (items : List CatalogItemQuantity) (result result' : CheckoutData)
      → verify_loop env dtos items result ≡ ok result'
      → IsSorted dtos result
      → IsSorted dtos result' × (count result' ≡ count result + length items)
  unfolding verify_loop
  verify_loop-IsSorted [] result result' h sorted =
      let same : result ≡ result' = ground arith in
      (subst (IsSorted dtos) same sorted, ground arith)
  verify_loop-IsSorted (item ∷ items) result result' h sorted =
      elim (Option-cases (find_dto item.id dtos)) [
        | inl missing ↦ absurd (ground arith)
        | inr (dto, found) ↦ (elim (Result-cases (verify_item env dto item result)) [
          | inr (e, bad) ↦ absurd (ground arith)
          | inl (next, good) ↦
              (let step = verify_item-IsSorted dto item result next found good sorted in
                let rest = verify_loop-IsSorted items next result' (ground arith) step.0 in
                (rest.0, omega (arith, rest.1, step.1)))
        ])
      ]
