-- ===== src/Catalog/Filters.antt =====
-- The filter groups of a product: `prepare_filter_groups` of src/services/catalog/utils.py.
pub mod Grouped
mod Tests
use fast_api_example.Prelude.{
  ◌==◌, if◌then◌else◌, filter, any, String, ◌&&◌, Option, none, some, List, [], ◌∷◌, ◌++◌, str_eq,
}
use fast_api_example.Errors.{attribute_error}
use fast_api_example.Database.{Uuid, Db, FilterOrm, FilterGroupOrm}
use fast_api_example.App.{Result, ok, err, get_by_id}

pub record FilterDto : Type 0 where
  pub id : Option Uuid
  pub value : String

pub record FilterGroup : Type 0 where
  pub id : Option Uuid
  pub title : String
  pub filters : List FilterDto

-- `item.filters`, through the table `product_filter`.
unfoldable pub filters_of : Uuid → Db → List FilterOrm
filters_of product_id db =
    filter
      (λ f.
        any (λ link. link.filter_id == f.id && link.product_id == product_id) db.product_filters)
      db.filters

unfoldable pub filter_dto : FilterOrm → FilterDto
filter_dto f = record { id = some f.id; value = f.value }

-- The body of the loop: the dictionary `filter_groups` is the list of its values, in order, found
-- by their titles.
unfoldable pub add_filter : FilterOrm → FilterGroupOrm → List FilterGroup → List FilterGroup
unfolding filter_dto
add_filter f group [] =
    record { id = some group.id; title = group.title; filters = filter_dto f ∷ [] } ∷ []
add_filter f group (made ∷ groups) =
    let rest = add_filter f group groups in
    if str_eq made.title group.title
    then record made { filters = made.filters ++ filter_dto f ∷ [] } ∷ groups
    else made ∷ rest

-- `for filter in item.filters`; `filter.group` is `None` where the row is missing.
unfoldable pub filter_loop : Db → List FilterOrm → List FilterGroup → Result (List FilterGroup)
unfolding add_filter
filter_loop db [] groups = ok groups
filter_loop db (f ∷ filters) groups =
    elim (get_by_id (λ group. group.id) f.filter_group_id db.filter_groups) [
      | none ↦ err attribute_error
      | some group ↦ filter_loop db filters (add_filter f group groups)
    ]

unfoldable pub prepare_filter_groups : Db → Uuid → Result (List FilterGroup)
unfolding filters_of filter_loop
prepare_filter_groups db product_id = filter_loop db (filters_of product_id db) []
