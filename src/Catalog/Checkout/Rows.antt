-- ===== src/Catalog/Checkout/Rows.antt =====
-- The rows that the data of `get_catalog_items_checkout_data`
-- (src/database/repositories/catalog.py) come from.
use mathlib.Core.Path.{subst}
use fast_api_example.Prelude.{
  ◌==◌, Option-cases, Member, find-Member, Member-filter, contains, ◌≡◌, refl, sym, inl, inr, true,
  ◌&&◌, some, List, [], ◌∷◌, arith,
}
use fast_api_example.Database.{Uuid, Db, CatalogItemOrm}
use fast_api_example.App.{Result-cases, ok, get_by_id}
use fast_api_example.Catalog.Models.{CatalogItemCheckoutDataDto}
use fast_api_example.Catalog.Checkout.{
  plan_parts, checkout_dto, checkout_dtos, active_items, get_catalog_items_checkout_data, find_dto,
}

-- The data of a row: what the checkout reads of it.
abbrev pub IsDataOf : CatalogItemOrm → CatalogItemCheckoutDataDto → Type 0
IsDataOf row dto =
    (dto.id ≡ row.id)
    × (dto.total ≡ row.quantity)
    × (dto.ordered ≡ row.ordered_quantity)
    × (dto.price ≡ row.price)

checkout_dto-IsDataOf :
    (db : Db) (row : CatalogItemOrm) (dto : CatalogItemCheckoutDataDto)
    → checkout_dto db row ≡ ok dto
    → IsDataOf row dto
unfolding checkout_dto
checkout_dto-IsDataOf db row dto h =
    elim (Option-cases (get_by_id (λ p. p.id) row.publication_id db.publications)) [
      | inl missing ↦ absurd (ground arith)
      | inr (publication, found) ↦
          (elim (Option-cases (get_by_id (λ p. p.id) row.product_id db.products)) [
            | inl missing ↦ absurd (ground arith)
            | inr (product, there) ↦
                (let made : dto ≡ record {
                  id = row.id;
                  total = row.quantity;
                  ordered = row.ordered_quantity;
                  preorder_id = publication.preorder_id;
                  price = row.price;
                  title = product.title;
                  credit_parts = plan_parts db row.credit_plan_id;
                } =
                    ground arith in
                  rw made (refl, refl, refl, refl))
          ])
    ]

checkout_dtos-Member :
    (db : Db) (rows : List CatalogItemOrm) (dtos : List CatalogItemCheckoutDataDto)
    (dto : CatalogItemCheckoutDataDto)
    → checkout_dtos db rows ≡ ok dtos
    → Member dto dtos
    → (row : CatalogItemOrm) × Member row rows × IsDataOf row dto
unfolding checkout_dtos
checkout_dtos-Member db [] dtos dto h m =
    let nothing : dtos ≡ [] = ground arith in absurd (subst (Member dto) nothing m)
checkout_dtos-Member db (row ∷ rows) dtos dto h m = elim (Result-cases (checkout_dto db row)) [
  | inr (e, bad) ↦ absurd (ground arith)
  | inl (first, good) ↦ (elim (Result-cases (checkout_dtos db rows)) [
    | inr (e, bad) ↦ absurd (ground arith)
    | inl (rest, fine) ↦
        (let made : dtos ≡ first ∷ rest = ground arith in
          elim (subst (Member dto) made m) [
            | inl same ↦ (
              row,
              inl refl,
              subst (IsDataOf row) (sym same) (checkout_dto-IsDataOf db row first good),
            )
            | inr there ↦
                (let found = checkout_dtos-Member db rows rest dto fine there in
                  (found.0, inr found.1, found.2))
          ])
  ])
]

-- A row of an active item with this identifier.
abbrev pub IsOnSale : Db → Uuid → CatalogItemOrm → Type 0
IsOnSale db id row = Member row db.catalog_items × (row.id ≡ id) × (row.is_active ≡ true)

get_catalog_items_checkout_data-ok :
    (ids : List Uuid) (db : Db) (dtos : List CatalogItemCheckoutDataDto)
    → get_catalog_items_checkout_data ids db ≡ ok dtos
    → checkout_dtos db (active_items ids db.catalog_items) ≡ ok dtos
unfolding get_catalog_items_checkout_data
get_catalog_items_checkout_data-ok ids db dtos h = ground arith

module _ (ids : List Uuid) (db : Db) (dtos : List CatalogItemCheckoutDataDto)
    (made : get_catalog_items_checkout_data ids db ≡ ok dtos) where
  pub found_row :
      (id : Uuid) (dto : CatalogItemCheckoutDataDto)
      → find_dto id dtos ≡ some dto
      → Member dto dtos × (row : CatalogItemOrm) × IsOnSale db id row × IsDataOf row dto
  unfolding find_dto active_items
  found_row id dto h =
      let (m, same) = find-Member (λ dto. dto.id == id) dtos dto h in
      let (row, there, fields) =
        checkout_dtos-Member db (active_items ids db.catalog_items) dtos dto
          (get_catalog_items_checkout_data-ok ids db dtos made) m in
      let (on_file, active) =
        Member-filter (λ item. item.is_active && contains item.id ids) db.catalog_items row there in
      (m, row, (on_file, ground (arith, fields), ground arith), fields)
