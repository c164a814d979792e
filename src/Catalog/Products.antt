-- ===== src/Catalog/Products.antt =====
-- The new products of the catalog: `create_product` and `add_attachments_to_product` of
-- src/services/catalog/service.py, with the repository's functions of
-- src/database/repositories/catalog.py that they call.
pub mod Pictures
pub mod Shown
pub mod Drawing
pub mod Filed
mod Tests
use fast_api_example.Prelude.{
  if◌then◌else◌, filter, find, contains, ℕ, ◌*◌, String, Option, none, some, List, [], ◌∷◌, ◌++◌,
  map, not, str_eq,
}
use fast_api_example.Errors.{attribute_error}
use fast_api_example.Database.{
  Uuid, Instant, Db, BaseOrm, ProductCategoryOrm, AttachmentOrm, ProductOrm, ProductFilterOrm,
  FilterGroupOrm,
}
use fast_api_example.App.{
  Env, World, Action, gets, modify, or_raise, pure, draw, get_by_id, update_by_id, new_base, ◌>>=◌,
  ◌>>◌,
}
use fast_api_example.Catalog.Filters.{FilterDto, FilterGroup}

-- `class CreateProductDTO`; the physical properties are the text of what `model_dump` makes of
-- them.
pub record CreateProductDto : Type 0 where
  pub title : String
  pub category_link : String
  pub description : Option String
  pub physical_properties : Option String
  pub filter_groups : List FilterGroup

-- `class Attachment` of src/services/file_manager/models.py
pub record Attachment : Type 0 where
  pub product_id : Uuid
  pub type : String
  pub index : ℕ
  pub url : String

-- A filter of a new product, with its group.
pub record NewFilter : Type 0 where
  pub base : BaseOrm
  pub open base use *
  pub value : String
  pub group : FilterGroupOrm

-- `CatalogRepository.get_category_by_link`; a link is unique.
unfoldable pub get_category_by_link : String → Db → Option ProductCategoryOrm
get_category_by_link link db = find (λ category. str_eq category.link link) db.categories

-- `id or uuid4()`
unfoldable pub id_or_draw : Env → Option Uuid → Action World Uuid
unfolding draw
id_or_draw env none = draw env
id_or_draw env (some id) = pure id

-- The columns of an object that is made with this identifier: one is drawn for it first.
unfoldable pub base_with : Env → Instant → Uuid → Action World BaseOrm
unfolding new_base ◌>>=◌
base_with env filed_at id = do base ← new_base env filed_at; pure (record base { id = id })

-- `for filter in dto_filter_group.filters`
unfoldable pub group_filters :
    Env → Instant → FilterGroupOrm → List FilterDto → Action World (List NewFilter)
unfolding id_or_draw base_with ◌>>=◌
group_filters env filed_at group [] = pure []
group_filters env filed_at group (filter ∷ filters) = do
  id ← id_or_draw env filter.id
  base ← base_with env filed_at id
  rest ← group_filters env filed_at group filters
  pure (record { base = base; value = filter.value; group = group } ∷ rest)

-- `db_filter_group`
unfoldable pub db_filter_group :
    Env → Instant → Option ProductCategoryOrm → FilterGroup → Action World FilterGroupOrm
unfolding id_or_draw base_with ◌>>=◌
db_filter_group env filed_at category dto = do
  id ← id_or_draw env dto.id
  known ← or_raise category attribute_error
  base ← base_with env filed_at id
  pure (record { base = base; product_category_id = known.id; title = dto.title })

-- `for dto_filter_group in product_dto.filter_groups`
unfoldable pub product_filters :
    Env → Instant → Option ProductCategoryOrm → List FilterGroup → Action World (List NewFilter)
unfolding db_filter_group group_filters ◌>>=◌
product_filters env filed_at category [] = pure []
product_filters env filed_at category (dto ∷ dtos) = do
  group ← db_filter_group env filed_at category dto
  filters ← group_filters env filed_at group dto.filters
  rest ← product_filters env filed_at category dtos
  pure (filters ++ rest)

-- `session.merge` of a group: the row with its identifier takes the title and the category, or
-- there is a new row.
unfoldable pub merge_group : FilterGroupOrm → Db → Db
merge_group group db = record db {
  filter_groups = elim (get_by_id (λ g. g.id) group.id db.filter_groups) [
    | none ↦ db.filter_groups ++ group ∷ []
    | some old ↦
        update_by_id (λ g. g.id) group.id
          (λ g. record g { product_category_id = group.product_category_id; title = group.title })
          db.filter_groups
  ];
}

-- `session.merge` of a filter, with its group, whose key it takes when it is filed.
unfoldable pub merge_filter : NewFilter → Db → Db
unfolding merge_group
merge_filter filter db =
    let merged = merge_group filter.group db in
    record merged {
      filters = elim (get_by_id (λ f. f.id) filter.id merged.filters) [
        | none ↦
            merged.filters
            ++ record {
              base = filter.base;
              filter_group_id = filter.group.id;
              value = filter.value;
            }
              ∷ []
        | some old ↦
            update_by_id (λ f. f.id) filter.id
              (λ f. record f { filter_group_id = filter.group.id; value = filter.value })
              merged.filters
      ];
    }

unfoldable pub merge_filters : List NewFilter → Db → Db
unfolding merge_filter
merge_filters [] db = db
merge_filters (filter ∷ filters) db = merge_filters filters (merge_filter filter db)

-- The rows of `product_filter` that the relationship `filters` files, one for a filter.
unfoldable pub filter_links :
    Env → Instant → Uuid → List Uuid → Action World (List ProductFilterOrm)
unfolding new_base ◌>>=◌
filter_links env filed_at product_id [] = pure []
filter_links env filed_at product_id (id ∷ ids) = do
  base ← new_base env filed_at
  rest ← filter_links env filed_at product_id ids
  pure (record { base = base; filter_id = id; product_id = product_id } ∷ rest)

-- The identifiers in a list, each once.
unfoldable pub distinct : List Uuid → List Uuid → List Uuid
distinct seen [] = []
distinct seen (id ∷ ids) =
    let rest = distinct (id ∷ seen) ids in if contains id seen then distinct seen ids else id ∷ rest

-- `CatalogRepository.create_product_with_filters`; the identifier of the product is new. The merge
-- of a filter replaces its `products` by the new one, so that its rows for other products are
-- deleted. The other filters of a group that is merged lose their group, a column that is not
-- optional: they stay here, and the commit's refusal is the parameter of Transport/Session.antt.
unfoldable pub create_product_with_filters :
    Env → Instant → ProductOrm → List NewFilter → Action World Uuid
unfolding merge_filters filter_links distinct ◌>>=◌
create_product_with_filters env filed_at product filters = do
  let ids = distinct [] (map (λ (f : NewFilter). f.id) filters)
  links ← filter_links env filed_at product.id ids
  modify (λ w.
      let merged = merge_filters filters w.db in
      record w {
        db = record merged {
          products = merged.products ++ product ∷ [];
          product_filters =
              filter (λ link. not (contains link.filter_id ids)) merged.product_filters ++ links;
        };
      })
  pure product.id

-- `CatalogService.create_product`
unfoldable pub create_product : Env → Instant → CreateProductDto → Action World Uuid
unfolding get_category_by_link product_filters create_product_with_filters new_base ◌>>=◌
create_product env filed_at dto = do
  db ← gets (λ w. w.db)
  let category = get_category_by_link dto.category_link db
  filters ← product_filters env filed_at category dto.filter_groups
  properties ← or_raise dto.physical_properties attribute_error
  known ← or_raise category attribute_error
  base ← new_base env filed_at
  create_product_with_filters env filed_at
      (record {
        base = base;
        category_id = known.id;
        title = dto.title;
        description = dto.description;
        physical_properties = some properties;
      })
      filters

-- The rows of `add_attachments_to_product`.
unfoldable pub attachment_rows : Env → Instant → List Attachment → Action World (List AttachmentOrm)
unfolding new_base ◌>>=◌
attachment_rows env filed_at [] = pure []
attachment_rows env filed_at (attachment ∷ attachments) = do
  base ← new_base env filed_at
  rest ← attachment_rows env filed_at attachments
  pure (
      record {
        base = base;
        product_id = attachment.product_id;
        type = attachment.type;
        index = attachment.index;
        url = attachment.url;
      }
      ∷ rest)

-- `CatalogService.add_attachments_to_product`, and the repository's function of this name.
unfoldable pub add_attachments_to_product :
    Env → Instant → List Attachment → Action World (Unit {0})
unfolding attachment_rows ◌>>=◌
add_attachments_to_product env filed_at attachments = do
  rows ← attachment_rows env filed_at attachments
  modify (λ w. record w { db = record w.db { attachments = w.db.attachments ++ rows } })
