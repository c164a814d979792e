-- ===== src/Catalog/Publishing.antt =====
-- `create_publication` and `get_publication` of src/services/catalog/service.py.
pub mod Created
pub mod Detailed
mod Tests
use fast_api_example.Prelude.{
  ℤ, pos, ℕ, suc, String, true, Option, none, some, List, [], ◌∷◌, ◌++◌, map,
}
use fast_api_example.Errors.{attribute_error}
use fast_api_example.Database.{Uuid, Instant, BaseOrm, CatalogItemOrm, PublicationOrm}
use fast_api_example.App.{
  Env, World, Action, Result, err, gets, lift, modify, or_raise, pure, get_by_id, new_base, all_of,
  ◌>>=◌, ◌>>◌,
}
use fast_api_example.Catalog.Models.{CreditPaymentPart}
use fast_api_example.Catalog.Publications.{
  Validated, CatalogItem, Publication, active_items_of, preorder_of,
}

-- `class CreateCatalogItemDTO`; `credit_info` is the list of its payments.
pub record CreateCatalogItemDto : Type 0 where
  pub product_id : Uuid
  pub price : ℤ
  pub quantity : Option ℤ
  pub discount : Option ℤ
  pub credit_info : Option (List CreditPaymentPart)

-- A `CatalogItemORM` that belongs to no publication yet.
pub record NewCatalogItem : Type 0 where
  pub base : BaseOrm
  pub product_id : Uuid
  pub price : ℤ
  pub quantity : Option ℤ
  pub index : Option ℕ

-- `orm_catalog_items`, from this index on.
unfoldable pub orm_catalog_items :
    Env → Instant → ℕ → List CreateCatalogItemDto → Action World (List NewCatalogItem)
unfolding new_base ◌>>=◌
orm_catalog_items env filed_at index [] = pure []
orm_catalog_items env filed_at index (item ∷ items) = do
  base ← new_base env filed_at
  rest ← orm_catalog_items env filed_at (suc index) items
  pure (
      record {
        base = base;
        product_id = item.product_id;
        price = item.price;
        quantity = item.quantity;
        index = some index;
      }
      ∷ rest)

-- `if len(orm_catalog_items) == 1`
unfoldable pub unnumber_single : List NewCatalogItem → List NewCatalogItem
unnumber_single [] = []
unnumber_single (item ∷ []) = record item { index = none } ∷ []
unnumber_single (item ∷ (next ∷ items)) = item ∷ next ∷ items

-- The row of an item, which takes the key of the publication that it is put in.
unfoldable pub catalog_item_row : Uuid → NewCatalogItem → CatalogItemOrm
catalog_item_row publication_id item = record {
  base = item.base;
  publication_id = publication_id;
  product_id = item.product_id;
  credit_plan_id = none;
  price = item.price;
  is_active = true;
  index = item.index;
  quantity = item.quantity;
  ordered_quantity = pos 0;
}

-- `CatalogRepository.create_publication`: the session files the publication with its items.
unfoldable pub file_publication : PublicationOrm → List NewCatalogItem → World → World
unfolding catalog_item_row
file_publication publication items w = record w {
  db = record w.db {
    publications = w.db.publications ++ publication ∷ [];
    catalog_items = w.db.catalog_items ++ map (catalog_item_row publication.id) items;
  };
}

-- `CatalogService.create_publication`
unfoldable pub create_publication :
    Env → Instant → String → List CreateCatalogItemDto → Option String → Action World Uuid
unfolding orm_catalog_items unnumber_single file_publication new_base ◌>>=◌
create_publication env filed_at link catalog_items delivery_cost_included = do
  items ← orm_catalog_items env filed_at 0 catalog_items
  base ← new_base env filed_at
  modify (
      file_publication
        (record {
          base = base;
          preorder_id = none;
          type = "STOCK";
          link = link;
          delivery_cost_included = delivery_cost_included;
        })
        (unnumber_single items))
  pure base.id

-- The body of the loop for an active item: a `CatalogItemORM` has no attribute `variation_index`,
-- which is read after columns that it has.
unfoldable pub detailed_item : CatalogItemOrm → Result CatalogItem
detailed_item item = err attribute_error

-- `CatalogService.get_publication`
unfoldable pub get_publication : Validated → Uuid → Action World Publication
unfolding detailed_item active_items_of preorder_of all_of ◌>>=◌
get_publication v publication_id = do
  db ← gets (λ w. w.db)
  publication ← or_raise (get_by_id (λ p. p.id) publication_id db.publications) attribute_error
  items ← lift (all_of detailed_item (active_items_of db publication.id))
  preorder ← lift (preorder_of v db publication)
  pure (record {
    id = publication.id;
    created_at = publication.created_at;
    updated_at = publication.updated_at;
    link = publication.link;
    preorder = preorder;
    items = items;
    delivery_cost_included = publication.delivery_cost_included;
  })
