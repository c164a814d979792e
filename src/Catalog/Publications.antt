-- ===== src/Catalog/Publications.antt =====
-- The publications of the catalog: `CatalogService.get_publications` of
-- src/services/catalog/service.py. What pydantic makes of a row or of a text of JSON is the
-- parameter `Validated`.
pub mod Listed
mod Tests
use fast_api_example.Prelude.{
  ℤ, ◌==◌, if◌then◌else◌, filter, any, ℕ, String, Bool, ◌&&◌, Option, none, some, List, str_eq,
}
use fast_api_example.Errors.{attribute_error}
use fast_api_example.Database.{
  Uuid, Instant, Db, ProductCategoryOrm, PreorderOrm, CreditPartOrm, CatalogItemOrm, ProductOrm,
  PublicationOrm,
}
use fast_api_example.App.{
  and_then, all_of, World, Action, Result, ok, err, gets, lift, get_by_id, ◌>>=◌,
}
use fast_api_example.Catalog.Images.{image_urls}
use fast_api_example.Catalog.Models.{CreditPaymentPart}
use fast_api_example.Catalog.Filters.{FilterGroup, prepare_filter_groups}

pub record CatalogCategory : Type 0 where
  pub id : Uuid
  pub title : String
  pub link : String

-- `class Preorder`
pub record Preorder : Type 0 where
  pub id : Uuid
  pub title : String
  pub expected_arrival : Option String
  pub status : String

-- `physical_properties` is the text of what pydantic has read.
pub record Product : Type 0 where
  pub id : Uuid
  pub created_at : Instant
  pub updated_at : Option Instant
  pub title : String
  pub description : Option String
  pub physical_properties : String
  pub category : CatalogCategory
  pub filter_groups : List FilterGroup
  pub images : List String

-- `credit_info` is the list of its payments; `discount` is always `None`.
pub record CatalogItem : Type 0 where
  pub id : Uuid
  pub created_at : Instant
  pub updated_at : Option Instant
  pub price : ℤ
  pub quantity : Option ℤ
  pub is_active : Bool
  pub index : Option ℕ
  pub credit_info : Option (List CreditPaymentPart)
  pub product : Product

pub record Publication : Type 0 where
  pub id : Uuid
  pub created_at : Instant
  pub updated_at : Option Instant
  pub link : String
  pub preorder : Option Preorder
  pub items : List CatalogItem
  pub delivery_cost_included : Option String

-- `model_validate` of a row, which is `None` where it is missing, or of a text of JSON.
pub record Validated : Type 0 where
  pub category : Option ProductCategoryOrm → Result CatalogCategory
  pub physical_properties : Option String → Result String
  pub payment_part : CreditPartOrm → Result CreditPaymentPart
  pub preorder : Option PreorderOrm → Result Preorder

-- `CreditInfo(...) if catalog_item.credit_plan else None`
unfoldable pub credit_info : Validated → Db → Option Uuid → Result (Option (List CreditPaymentPart))
unfolding all_of
credit_info v db none = ok none
credit_info v db (some plan_id) = elim (get_by_id (λ plan. plan.id) plan_id db.credit_plans) [
  | none ↦ ok none
  | some plan ↦
      and_then
        (all_of v.payment_part (filter (λ part. part.credit_plan_id == plan.id) db.credit_parts))
        (λ payments. ok (some payments))
]

unfoldable pub product_of : Validated → Db → ProductOrm → Result Product
unfolding image_urls
product_of v db product =
    and_then (v.category (get_by_id (λ c. c.id) product.category_id db.categories)) (λ category.
      and_then (v.physical_properties product.physical_properties) (λ properties.
        and_then (prepare_filter_groups db product.id) (λ groups. ok (record {
          id = product.id;
          created_at = product.created_at;
          updated_at = product.updated_at;
          title = product.title;
          description = product.description;
          physical_properties = properties;
          category = category;
          filter_groups = groups;
          images = image_urls product.id db;
        }))))

-- The `CatalogItem` of a row.
unfoldable pub catalog_item : Validated → Db → CatalogItemOrm → Result CatalogItem
unfolding credit_info product_of
catalog_item v db item = and_then (credit_info v db item.credit_plan_id) (λ credit.
    elim (get_by_id (λ p. p.id) item.product_id db.products) [
      | none ↦ err attribute_error
      | some row ↦ and_then (product_of v db row) (λ product. ok (record {
        id = item.id;
        created_at = item.created_at;
        updated_at = item.updated_at;
        price = item.price;
        quantity = item.quantity;
        is_active = item.is_active;
        index = item.index;
        credit_info = credit;
        product = product;
      }))
    ])

-- `publication.items`, those that are active.
unfoldable pub active_items_of : Db → Uuid → List CatalogItemOrm
active_items_of db publication_id =
    filter (λ item. item.publication_id == publication_id && item.is_active) db.catalog_items

-- `Preorder.model_validate(publication.preorder) if publication.type == 'preorder' else None`
unfoldable pub preorder_of : Validated → Db → PublicationOrm → Result (Option Preorder)
preorder_of v db publication =
    if str_eq publication.type "preorder"
    then and_then
        (v.preorder (elim publication.preorder_id [
          | none ↦ none
          | some id ↦ get_by_id (λ p. p.id) id db.preorders
        ]))
        (λ preorder. ok (some preorder))
    else ok none

-- The body of the loop for a publication that has an active item.
unfoldable pub publication_of : Validated → Db → PublicationOrm → Result Publication
unfolding catalog_item preorder_of all_of active_items_of
publication_of v db publication =
    and_then (all_of (catalog_item v db) (active_items_of db publication.id)) (λ items.
      and_then (preorder_of v db publication) (λ preorder. ok (record {
        id = publication.id;
        created_at = publication.created_at;
        updated_at = publication.updated_at;
        link = publication.link;
        preorder = preorder;
        items = items;
        delivery_cost_included = publication.delivery_cost_included;
      })))

-- `any(catalog_item.is_active for catalog_item in publication.items)`
unfoldable pub has_active : Db → PublicationOrm → Bool
has_active db publication =
    any (λ item. item.publication_id == publication.id && item.is_active) db.catalog_items

-- `CatalogService.get_publications`: the loop passes the other publications over.
unfoldable pub get_publications : Validated → Action World (List Publication)
unfolding publication_of has_active all_of ◌>>=◌
get_publications v = do
  db ← gets (λ w. w.db)
  lift (all_of (publication_of v db) (filter (has_active db) db.publications))
