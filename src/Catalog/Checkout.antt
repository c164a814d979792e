-- ===== src/Catalog/Checkout.antt =====
-- The checkout of src/services/catalog/service.py (`verify_checkout_data`, `reserve_catalog_items`)
-- and what it asks of src/database/repositories/catalog.py.
pub mod Items
pub mod Requested
pub mod Rows
pub mod Sound
pub mod Reserve
pub mod Agreement
mod Tests
use fast_api_example.Prelude.{
  ◌+ℤ◌, ℤ, pos, ltb_ℤ, min_ℤ, ◌==◌, if◌then◌else◌, length, filter, all, any, find, contains, Bool,
  true, false, not, ◌&&◌, Option, none, some, List, [], ◌∷◌, ◌++◌, map,
}
use fast_api_example.Errors.{
  attribute_error, runtime_error, raise_class, catalog_item_not_found, catalog_item_out_of_stock,
  incorrect_items_sections,
}
use fast_api_example.Database.{Uuid, Db, CatalogItemOrm, quantity_limit}
use fast_api_example.App.{
  Env, World, Action, Result, ok, err, gets, lift, modify, raise_if, get_by_id, ◌>>=◌, ◌>>◌,
}
use fast_api_example.Catalog.Models.{
  CreditPart, CreditPaymentPart, CatalogItemQuantity, ShortCheckoutItem, CheckoutData,
  CatalogItemCheckoutDataDto, available,
}

-- `MAX_CART_ITEM_QUANTITY` of src/constants.py
abbrev pub max_cart_item_quantity : ℤ
max_cart_item_quantity = pos 5

-- `item.credit_plan.parts if item.credit_plan else None`
unfoldable pub plan_parts : Db → Option Uuid → Option (List CreditPart)
plan_parts db none = none
plan_parts db (some plan_id) = elim (get_by_id (λ plan. plan.id) plan_id db.credit_plans) [
  | none ↦ none
  | some plan ↦ some (
      map (λ part. record { sum = part.sum; deadline = part.deadline })
        (filter (λ part. part.credit_plan_id == plan.id) db.credit_parts))
]

-- The `CatalogItemCheckoutDataDTO` of an item; an attribute of a missing row raises.
unfoldable pub checkout_dto : Db → CatalogItemOrm → Result CatalogItemCheckoutDataDto
unfolding plan_parts
checkout_dto db item = elim (get_by_id (λ p. p.id) item.publication_id db.publications) [
  | none ↦ err attribute_error
  | some publication ↦ (elim (get_by_id (λ p. p.id) item.product_id db.products) [
    | none ↦ err attribute_error
    | some product ↦ ok (record {
      id = item.id;
      total = item.quantity;
      ordered = item.ordered_quantity;
      preorder_id = publication.preorder_id;
      price = item.price;
      title = product.title;
      credit_parts = plan_parts db item.credit_plan_id;
    })
  ])
]

-- The dictionary comprehension: its values in order, found by their identifier.
unfoldable pub checkout_dtos : Db → List CatalogItemOrm → Result (List CatalogItemCheckoutDataDto)
unfolding checkout_dto
checkout_dtos db [] = ok []
checkout_dtos db (item ∷ items) = elim (checkout_dto db item) [
  | err e ↦ err e
  | ok dto ↦ (elim (checkout_dtos db items) [ err e ↦ err e | ok dtos ↦ ok (dto ∷ dtos) ])
]

-- `select(CatalogItemORM).where(is_active, id.in_(item_ids))`
unfoldable pub active_items : List Uuid → List CatalogItemOrm → List CatalogItemOrm
active_items item_ids = filter (λ item. item.is_active && contains item.id item_ids)

unfoldable pub get_catalog_items_checkout_data :
    List Uuid → Db → Result (List CatalogItemCheckoutDataDto)
unfolding checkout_dtos active_items
get_catalog_items_checkout_data item_ids db =
    let items = active_items item_ids db.catalog_items in
    if length items == length item_ids
    then checkout_dtos db items
    else err (raise_class catalog_item_not_found)

-- `==` of identifiers that may be `None`
unfoldable pub same_id : Option Uuid → Option Uuid → Bool
same_id none none = true
same_id (some a) (some b) = a == b
same_id _ _ = false

-- What pydantic makes of the list `db_item.credit_parts`.
unfoldable pub payment_parts : Env → List CreditPart → Result (List CreditPaymentPart)
payment_parts env [] = ok []
payment_parts env (part ∷ parts) = elim (env.payment_part part) [
  | err e ↦ err e
  | ok made ↦ (elim (payment_parts env parts) [ err e ↦ err e | ok rest ↦ ok (made ∷ rest) ])
]

unfoldable pub optional_parts :
    Env → Option (List CreditPart) → Result (Option (List CreditPaymentPart))
unfolding payment_parts
optional_parts env none = ok none
optional_parts env (some parts) = elim (payment_parts env parts) [
  | err e ↦ err e
  | ok made ↦ ok (some made)
]

-- The test of the loop: `db_item.available is not None and item.quantity > db_item.available`,
-- with what is available.
unfoldable pub shortage : CatalogItemCheckoutDataDto → ℤ → Option ℤ
unfolding available
shortage dto quantity = elim (available dto) [
  | none ↦ none
  | some left ↦ (if ltb_ℤ left quantity then some left else none)
]

-- The body of the loop for an item whose data has been found.
unfoldable pub verify_item :
    Env → CatalogItemCheckoutDataDto → CatalogItemQuantity → CheckoutData → Result CheckoutData
unfolding shortage optional_parts
verify_item env dto item result = elim (shortage dto item.quantity) [
  | some left ↦ ok (record result {
    adjusted_items =
        result.adjusted_items
        ++ record { id = item.id; quantity = min_ℤ left max_cart_item_quantity } ∷ [];
  })
  | none ↦ (elim (optional_parts env dto.credit_parts) [
    | err e ↦ err e
    | ok parts ↦ ok (record result {
      available_items =
          result.available_items
          ++ record {
            short = record { id = item.id; quantity = item.quantity };
            preorder_id = dto.preorder_id;
            price = dto.price;
            title = dto.title;
            credit_parts = parts;
          }
            ∷ [];
    })
  ])
]

unfoldable pub find_dto : Uuid → List CatalogItemCheckoutDataDto → Option CatalogItemCheckoutDataDto
find_dto id = find (λ dto. dto.id == id)

-- `for item in checkout_items`
unfoldable pub verify_loop :
    Env
    → List CatalogItemCheckoutDataDto
    → List CatalogItemQuantity
    → CheckoutData
    → Result CheckoutData
unfolding verify_item find_dto
verify_loop env dtos [] result = ok result
verify_loop env dtos (item ∷ items) result = elim (find_dto item.id dtos) [
  | none ↦ err attribute_error
  | some dto ↦ (elim (verify_item env dto item result) [
    | err e ↦ err e
    | ok result' ↦ verify_loop env dtos items result'
  ])
]

-- The two tests before the loop. A StopIteration that leaves a coroutine is a RuntimeError.
unfoldable pub verify_sections : List CatalogItemCheckoutDataDto → Result (Unit {0})
unfolding same_id
verify_sections [] = err runtime_error
verify_sections (first ∷ dtos) =
    if all (λ dto. same_id dto.preorder_id first.preorder_id) (first ∷ dtos)
    then ok tt
    else err (raise_class incorrect_items_sections)

-- `CatalogService.verify_checkout_data`
unfoldable pub verify_checkout_data : Env → List CatalogItemQuantity → Action World CheckoutData
unfolding get_catalog_items_checkout_data verify_sections verify_loop ◌>>=◌
verify_checkout_data env checkout_items = do
  db ← gets (λ w. w.db)
  dtos ← lift (get_catalog_items_checkout_data (map (λ item. item.id) checkout_items) db)
  lift (verify_sections dtos)
  lift (verify_loop env dtos checkout_items (record { available_items = []; adjusted_items = [] }))

-- `{item.id: item.quantity for item in items}`, read at an identifier: the last entry counts.
unfoldable pub requested : List ShortCheckoutItem → Uuid → Option ℤ
requested [] id = none
requested (item ∷ items) id = elim (requested items id) [
  | some quantity ↦ some quantity
  | none ↦ (if item.id == id then some item.quantity else none)
]

-- `item.ordered_quantity + items_to_update[item.id]`, on the selected rows
unfoldable pub order_more : List ShortCheckoutItem → CatalogItemOrm → CatalogItemOrm
unfolding requested
order_more items row = elim (requested items row.id) [
  | none ↦ row
  | some quantity ↦ record row { ordered_quantity = row.ordered_quantity +ℤ quantity }
]

abbrev pub is_some : {A : Type 0} → Option A → Bool
is_some none = false
is_some (some a) = true

-- `CatalogService.reserve_catalog_items` and `increase_catalog_items_ordered_quantity`: the flush
-- checks `quantity_limit` on the rows that were written; if it fails, nothing is written.
unfoldable pub reserve_catalog_items : List ShortCheckoutItem → Action World (Unit {0})
unfolding order_more quantity_limit ◌>>=◌
reserve_catalog_items items = do
  db ← gets (λ w. w.db)
  let rows = map (order_more items) db.catalog_items
  raise_if (any (λ row. is_some (requested items row.id) && not (quantity_limit row)) rows)
      (raise_class catalog_item_out_of_stock)
  modify (λ w. record w { db = record w.db { catalog_items = rows } })
