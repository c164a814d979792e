-- ===== src/Catalog/Products/Shown.antt =====
-- The products as they are shown: `get_product` and `get_product_list` of
-- src/services/catalog/service.py.
use fast_api_example.Prelude.{
  ◌==◌, if◌then◌else◌, any, String, Bool, false, not, Option, none, some, List, [], ◌∷◌, str_eq,
}
use fast_api_example.Errors.{attribute_error}
use fast_api_example.Database.{Uuid, Instant, Db, ProductOrm}
use fast_api_example.App.{
  World, Action, Result, ok, gets, lift, or_raise, pure, get_by_id, all_of, and_then, ◌>>=◌,
}
use fast_api_example.Catalog.Images.{image_urls}
use fast_api_example.Catalog.Filters.{FilterGroup, prepare_filter_groups}
use fast_api_example.Catalog.Publications.{Validated, CatalogCategory, Product, product_of}

-- `class ProductDetailed`
pub record ProductDetailed : Type 0 where
  pub id : Uuid
  pub created_at : Instant
  pub updated_at : Option Instant
  pub title : String
  pub description : Option String
  pub physical_properties : Option String
  pub category : CatalogCategory
  pub filter_groups : List FilterGroup
  pub images : List String
  pub is_published : Bool

-- `bool(product.catalog_items)`
unfoldable pub is_published : Db → Uuid → Bool
is_published db product_id = any (λ item. item.product_id == product_id) db.catalog_items

unfoldable pub detailed : Db → Product → ProductDetailed
unfolding is_published
detailed db product = record {
  id = product.id;
  created_at = product.created_at;
  updated_at = product.updated_at;
  title = product.title;
  description = product.description;
  physical_properties = some product.physical_properties;
  category = product.category;
  filter_groups = product.filter_groups;
  images = product.images;
  is_published = is_published db product.id;
}

-- `CatalogService.get_product`; no row is `None`, which has no `id`.
unfoldable pub get_product : Validated → Uuid → Action World ProductDetailed
unfolding product_of detailed ◌>>=◌
get_product v product_id = do
  db ← gets (λ w. w.db)
  row ← or_raise (get_by_id (λ p. p.id) product_id db.products) attribute_error
  product ← lift (product_of v db row)
  pure (detailed db product)

-- `if product.physical_properties`: the JSON values that count as false.
unfoldable pub filled_json : Option String → Bool
filled_json none = false
filled_json (some s) = not (any (str_eq s) ("null" ∷ "false" ∷ "0" ∷ "\"\"" ∷ "[]" ∷ "{}" ∷ []))

-- A product of the list: its physical properties are read only where there are some.
unfoldable pub listed_product : Validated → Db → ProductOrm → Result ProductDetailed
unfolding image_urls is_published filled_json
listed_product v db product =
    and_then (v.category (get_by_id (λ c. c.id) product.category_id db.categories)) (λ category.
      and_then
        (if filled_json product.physical_properties
          then and_then (v.physical_properties product.physical_properties) (λ p. ok (some p))
          else ok none)
        (λ properties. and_then (prepare_filter_groups db product.id) (λ groups. ok (record {
          id = product.id;
          created_at = product.created_at;
          updated_at = product.updated_at;
          title = product.title;
          description = product.description;
          physical_properties = properties;
          category = category;
          filter_groups = groups;
          images = image_urls product.id db;
          is_published = is_published db product.id;
        }))))

-- `CatalogService.get_product_list`
unfoldable pub get_product_list : Validated → Action World (List ProductDetailed)
unfolding listed_product all_of ◌>>=◌
get_product_list v = do db ← gets (λ w. w.db); lift (all_of (listed_product v db) db.products)
