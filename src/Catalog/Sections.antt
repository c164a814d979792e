-- ===== src/Catalog/Sections.antt =====
-- The sections of the catalog: `get_filter_groups_by_category`, `get_categories`, `create_category`
-- and `get_available_catalog_item_ids` of src/services/catalog/service.py, with the functions of
-- src/database/repositories that they call.
pub mod Sorted
mod Tests
use fast_api_example.Prelude.{
  ltb_ℤ, ◌==◌, filter, any, String, Bool, false, ◌&&◌, ◌||◌, Option, none, some, List, [], ◌∷◌,
  ◌++◌, map, str_eq,
}
use fast_api_example.Sorting.{sorted_by}
use fast_api_example.Errors.{Exception}
use fast_api_example.Database.{
  Uuid, Instant, Db, ProductCategoryOrm, FilterGroupOrm, CatalogItemOrm,
}
use fast_api_example.App.{
  Env, World, Action, Result, err, gets, lift, modify, pure, new_base, all_of, ◌>>=◌, ◌>>◌,
}
use fast_api_example.Catalog.Filters.{FilterGroup, filter_dto}
use fast_api_example.Catalog.Publications.{Validated, CatalogCategory}

-- `CatalogRepository.get_filter_groups_by_category`
unfoldable pub groups_by_category : String → Db → List FilterGroupOrm
groups_by_category category_link db =
    filter
      (λ group.
        any
          (λ category.
            category.id == group.product_category_id && str_eq category.link category_link)
          db.categories)
      db.filter_groups

-- The body of the loop over the groups.
unfoldable pub filter_group : Db → FilterGroupOrm → FilterGroup
unfolding sorted_by filter_dto
filter_group db group = record {
  id = some group.id;
  title = group.title;
  filters =
      sorted_by (λ f. f.value)
        (map filter_dto (filter (λ f. f.filter_group_id == group.id) db.filters));
}

-- `CatalogService.get_filter_groups_by_category`
unfoldable pub get_filter_groups_by_category : String → Db → List FilterGroup
unfolding groups_by_category filter_group sorted_by
get_filter_groups_by_category category_link db =
    sorted_by (λ group. group.title) (map (filter_group db) (groups_by_category category_link db))

-- `CatalogService.get_categories`
unfoldable pub get_categories : Validated → Action World (List CatalogCategory)
unfolding all_of ◌>>=◌
get_categories v = do
  db ← gets (λ w. w.db)
  lift (all_of (λ category. v.category (some category)) db.categories)

-- `ISqlAlchemyRepository.create` of a category, where `flush_error` is what the flush raises for
-- the tables, if anything.
unfoldable pub create_row : (Db → Option Exception) → ProductCategoryOrm → Action World Uuid
unfolding ◌>>=◌
create_row flush_error category = do
  modify (λ w. record w { db = record w.db { categories = w.db.categories ++ category ∷ [] } })
  db ← gets (λ w. w.db)
  elim (flush_error db) [ none ↦ pure category.id | some e ↦ lift (err e) ]

-- `CatalogService.create_category`
unfoldable pub create_category :
    (Db → Option Exception) → Env → Instant → String → String → Action World Uuid
unfolding create_row new_base ◌>>=◌
create_category flush_error env filed_at title link = do
  base ← new_base env filed_at
  create_row flush_error (record { base = base; link = link; title = title; is_active = false })

-- `CatalogItemORM.quantity > CatalogItemORM.ordered_quantity`: it does not hold of NULL.
unfoldable pub has_room : CatalogItemOrm → Bool
has_room item = elim item.quantity [
  | none ↦ false
  | some quantity ↦ ltb_ℤ item.ordered_quantity quantity
]

-- `get_available_catalog_item_ids`. The second argument of `or_` is `not CatalogItemORM.quantity`,
-- which Python evaluates before any row is read: it raises or is one truth value for all rows.
unfoldable pub get_available_catalog_item_ids : Result Bool → Action World (List Uuid)
unfolding has_room ◌>>=◌
get_available_catalog_item_ids negated = do
  for_all ← lift negated
  gets (λ w.
      map (λ (item : CatalogItemOrm). item.id)
        (filter (λ (item : CatalogItemOrm). item.is_active && (has_room item || for_all))
          w.db.catalog_items))
