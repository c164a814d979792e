-- ===== src/Catalog/Products/Filed.antt =====
-- What `create_product` (src/services/catalog/service.py) files.
use fast_api_example.Prelude.{
  Option-cases, filter, ◌+◌, ◌≡◌, refl, sym, ap, ◌∙◌, inl, inr, Option, none, some, List, [], ◌∷◌,
  ◌++◌, map, arith,
}
use fast_api_example.Errors.{Exception, attribute_error}
use fast_api_example.Database.{Uuid, Instant, Db, ProductOrm, ProductCategoryOrm}
use fast_api_example.App.{
  Env, World, Action, Result-cases, ok, err, draw, or_raise, new_base, ◌>>=◌,
}
use fast_api_example.Catalog.Products.{
  CreateProductDto, NewFilter, get_category_by_link, product_filters, merge_group, merge_filter,
  merge_filters, filter_links, distinct, create_product_with_filters, create_product,
}
use fast_api_example.Catalog.Products.Drawing.{
  product_filters-WritesNothing, filter_links-WritesNothing,
}

-- What the merge of filters leaves: the tables of other things.
merge_filters-kept :
    (filters : List NewFilter) (db : Db)
    → ((merge_filters filters db).attachments ≡ db.attachments)
      × ((merge_filters filters db).products ≡ db.products)
unfolding merge_filters merge_filter merge_group
merge_filters-kept [] db = (refl, refl)
merge_filters-kept (filter ∷ filters) db = merge_filters-kept filters (merge_filter filter db)

-- A product that was filed is the last row of its table, and has no attachment more.
abbrev pub IsFiled : CreateProductDto → Uuid → Db → Db → Type 0
IsFiled dto id before after =
    (product : ProductOrm) × (category : ProductCategoryOrm) × (get_category_by_link
        dto.category_link before
      ≡ some category)
    × (product.id ≡ id)
    × (product.title ≡ dto.title)
    × (product.description ≡ dto.description)
    × (product.physical_properties ≡ dto.physical_properties)
    × (product.category_id ≡ category.id)
    × (after.products ≡ before.products ++ product ∷ [])
    × (after.attachments ≡ before.attachments)

create_with-kept :
    (env : Env) (filed_at : Instant) (product : ProductOrm) (filters : List NewFilter)
    (w w' : World) (id : Uuid)
    → create_product_with_filters env filed_at product filters w ≡ (ok id, w')
    → (product.id ≡ id)
      × (w'.db.products ≡ w.db.products ++ product ∷ [])
      × (w'.db.attachments ≡ w.db.attachments)
unfolding create_product_with_filters ◌>>=◌
create_with-kept env filed_at product filters w w' id h =
    let ids = distinct [] (map (λ (f : NewFilter). f.id) filters) in
    ground (
      arith,
      filter_links-WritesNothing env filed_at product.id ids w.db w refl,
      merge_filters-kept filters (filter_links env filed_at product.id ids w).1.db,
    )

-- What `create_product` does after the filters.
abbrev after_filters :
    Env
    → Instant
    → CreateProductDto
    → Option ProductCategoryOrm
    → List NewFilter
    → Action World Uuid
after_filters env filed_at dto category filters =
    or_raise dto.physical_properties attribute_error >>= λ properties.
    or_raise category attribute_error >>= λ known. new_base env filed_at >>= λ base.
    create_product_with_filters env filed_at
      (record {
        base = base;
        category_id = known.id;
        title = dto.title;
        description = dto.description;
        physical_properties = some properties;
      })
      filters

after_filters-IsFiled :
    (env : Env) (filed_at : Instant) (dto : CreateProductDto) (category : Option ProductCategoryOrm)
    (filters : List NewFilter) (before : Db) (w w' : World) (id : Uuid)
    → get_category_by_link dto.category_link before ≡ category
    → w.db ≡ before
    → after_filters env filed_at dto category filters w ≡ (ok id, w')
    → IsFiled dto id before w'.db
unfolding new_base draw ◌>>=◌
after_filters-IsFiled env filed_at dto category filters before w w' id found same h =
    elim (Option-cases dto.physical_properties) [
      | inl missing ↦ absurd (ground arith)
      | inr (properties, given) ↦ (elim (Option-cases category) [
        | inl unknown ↦ absurd (ground arith)
        | inr (known, is_known) ↦
            (let product : ProductOrm = record {
              base = record {
                id = env.uuid4 w.drawn;
                created_at = filed_at;
                updated_at = some filed_at;
              };
              category_id = known.id;
              title = dto.title;
              description = dto.description;
              physical_properties = some properties;
            } in
              let (is_id, filed, attached) =
                create_with-kept env filed_at product filters (record w { drawn = w.drawn + 1 }) w'
                  id (ground arith) in
              (
                product,
                known,
                found ∙ is_known,
                is_id,
                refl,
                refl,
                sym given,
                refl,
                filed ∙ ap (λ (db : Db). db.products ++ product ∷ []) same,
                attached ∙ ap (λ (db : Db). db.attachments) same,
              ))
      ])
    ]

-- Where create_product returns, the category of the link is there, and the product is filed with
-- what the request says of it and with the category's identifier; the other products and the
-- attachments stay as they were.
pub create_product-IsFiled :
    (env : Env) (filed_at : Instant) (dto : CreateProductDto) (w w' : World) (id : Uuid)
    → create_product env filed_at dto w ≡ (ok id, w')
    → IsFiled dto id w.db w'.db
unfolding create_product ◌>>=◌
create_product-IsFiled env filed_at dto w w' id h =
    let category = get_category_by_link dto.category_link w.db in
    let made = product_filters env filed_at category dto.filter_groups in
    elim (Result-cases (made w).0) [
      | inr (e, failed) ↦ absurd (ground arith)
      | inl (filters, returned) ↦
          after_filters-IsFiled env filed_at dto category filters w.db (made w).1 w' id refl
            (product_filters-WritesNothing env filed_at category dto.filter_groups w.db w refl)
            (ground arith)
    ]

-- A request for a product of an unknown category is refused, and writes nothing.
pub create_product_unknown :
    (env : Env) (filed_at : Instant) (dto : CreateProductDto) (w : World)
    → get_category_by_link dto.category_link w.db ≡ none
    → ((e : Exception) × ((create_product env filed_at dto w).0 ≡ err e))
      × ((create_product env filed_at dto w).1.db ≡ w.db)
unfolding create_product ◌>>=◌
create_product_unknown env filed_at dto w unknown =
    let made =
      product_filters env filed_at (get_category_by_link dto.category_link w.db)
        dto.filter_groups in
    let kept =
      product_filters-WritesNothing env filed_at (get_category_by_link dto.category_link w.db)
        dto.filter_groups w.db w refl in
    elim (Result-cases (made w).0) [
      | inr (e, failed) ↦ rw failed ((e, refl), kept)
      | inl (filters, returned) ↦ rw returned (elim (Option-cases dto.physical_properties) [
        | inl missing ↦ rw missing ((attribute_error, refl), kept)
        | inr (properties, given) ↦
            rw (given, unknown)
              (
                (attribute_error, refl),
                product_filters-WritesNothing env filed_at none dto.filter_groups w.db w refl,
              )
      ])
    ]
