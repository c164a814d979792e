-- ===== src/Transport/Catalog.antt =====
-- The handlers of the catalog: src/transport/handlers/admin/catalog and
-- src/transport/handlers/client/catalog.
pub mod Products
mod Tests
use fast_api_example.Prelude.{if◌then◌else◌, String, Bool, Option, none, some, List, []}
use fast_api_example.Errors.{Exception, not_implemented}
use fast_api_example.Database.{Uuid, Instant, Db}
use fast_api_example.App.{
  Env, World, Action, Result, ok, err, raise, pure, lift, gets, and_then, ◌>>=◌, ◌>>◌,
}
use fast_api_example.Catalog.Filters.{FilterGroup}
use fast_api_example.Catalog.Publications.{
  Validated, CatalogCategory, Publication, get_publications,
}
use fast_api_example.Catalog.Publishing.{CreateCatalogItemDto, create_publication, get_publication}
use fast_api_example.Catalog.Products.{CreateProductDto, create_product, add_attachments_to_product}
use fast_api_example.Catalog.Products.Shown.{ProductDetailed, get_product, get_product_list}
use fast_api_example.Catalog.Sections.{
  get_filter_groups_by_category, get_categories, create_category, get_available_catalog_item_ids,
}
use fast_api_example.Files.{Pillow, Storage, Stored, in_world, upload_product_images}

-- `class CreateProductSchema`; the physical properties are the text of what pydantic has read.
pub record CreateProductSchema (File : Type 0) : Type 0 where
  pub title : String
  pub description : Option String
  pub category_link : String
  pub physical_properties : String
  pub filter_groups : List FilterGroup
  pub images : List File

-- `class CreatePublicationRequestSchema`; `delivery_cost_included` is the text that the column
-- takes from the truth value.
pub record CreatePublicationRequestSchema : Type 0 where
  pub link : String
  pub items : List CreateCatalogItemDto
  pub delivery_cost_included : Option String
  pub preorder_id : Option Uuid

-- What pydantic and orjson make of the texts of the form and of the schema, and what raising
-- `RequestValidationError` without an argument raises.
pub record Forms (File : Type 0) : Type 0 where
  pub physical_properties : String → Result String
  pub filter_groups : String → Result (List FilterGroup)
  pub schema : CreateProductSchema File → Result (CreateProductSchema File)
  pub product_dto : CreateProductSchema File → Result CreateProductDto
  pub bare_validation_error : Exception

module _ {File : Type 0} (forms : Forms File) where
  -- `parce_create_product_form`; the images are the contents of the files.
  unfoldable pub parce_create_product_form :
      List File
      → String
      → Option String
      → String
      → String
      → String
      → Result (CreateProductSchema File)
  parce_create_product_form images title description category_link properties groups =
      elim (and_then (forms.physical_properties properties) (λ physical_properties.
        and_then (forms.filter_groups groups) (λ filter_groups. forms.schema (record {
          title = title;
          description = description;
          category_link = category_link;
          physical_properties = physical_properties;
          filter_groups = filter_groups;
          images = images;
        })))) [ ok schema ↦ ok schema | err e ↦ err forms.bare_validation_error ]

  -- `create_product_entrypoint`; `filed_at` is the moment of the request.
  unfoldable pub create_product_entrypoint :
      {Pixels : Type 0}
      → Env
      → Storage
      → Pillow File Pixels
      → Instant
      → CreateProductSchema File
      → Action (Stored File) Uuid
  unfolding in_world ◌>>=◌
  create_product_entrypoint env storage pillow filed_at product = do
    dto ← lift (forms.product_dto product)
    product_id ← in_world (create_product env filed_at dto)
    attachments ← upload_product_images env storage pillow product_id product.images
    in_world (add_attachments_to_product env filed_at attachments)
    pure product_id

-- `get_product_entrypoint`
unfoldable pub get_product_entrypoint : Validated → Uuid → Action World ProductDetailed
unfolding get_product
get_product_entrypoint v id = get_product v id

-- `get_product_list_entrypoint`
unfoldable pub get_product_list_entrypoint : Validated → Action World (List ProductDetailed)
unfolding get_product_list
get_product_list_entrypoint v = get_product_list v

-- `get_filter_groups_entrypoint`
unfoldable pub get_filter_groups_entrypoint : String → Action World (List FilterGroup)
unfolding get_filter_groups_by_category
get_filter_groups_entrypoint category_name =
    gets (λ w. get_filter_groups_by_category category_name w.db)

-- `create_publication_entrypoint`, which passes `preorder_id` over.
unfoldable pub create_publication_entrypoint :
    Env → Instant → CreatePublicationRequestSchema → Action World Uuid
unfolding create_publication
create_publication_entrypoint env filed_at publication =
    create_publication env filed_at publication.link publication.items
      publication.delivery_cost_included

-- `get_publication_entrypoint`
unfoldable pub get_publication_entrypoint : Validated → Uuid → Action World Publication
unfolding get_publication
get_publication_entrypoint v id = get_publication v id

-- `get_publication_list_entrypoint`
unfoldable pub get_publication_list_entrypoint : Validated → Action World (List Publication)
unfolding get_publications
get_publication_list_entrypoint v = get_publications v

-- `get_categories_entrypoint`
unfoldable pub get_categories_entrypoint : Validated → Action World (List CatalogCategory)
unfolding get_categories
get_categories_entrypoint v = get_categories v

-- `create_category_entrypoint`
unfoldable pub create_category_entrypoint :
    (Db → Option Exception) → Env → Instant → String → String → Action World Uuid
unfolding create_category
create_category_entrypoint flush_error env filed_at title link =
    create_category flush_error env filed_at title link

-- A request of the client's catalog beside the cache of its answers.
pub record Cached (A : Type 0) : Type 0 where
  pub world : World
  pub catalog_cache : Option A

-- `get_catalog_entrypoint`, in `@cache(expire=3600, ...)`: an answer that is there is given again,
-- and an answer that is made is kept. `expired` is whether the time of the kept one is over.
unfoldable pub get_catalog_entrypoint :
    Validated → Bool → Action (Cached (List Publication)) (List Publication)
unfolding get_publications ◌>>=◌
get_catalog_entrypoint v expired s =
    let made = get_publications v s.world in
    elim (if expired then none else s.catalog_cache) [
      | some answer ↦ (ok answer, s)
      | none ↦ elim made.0 [
        | ok answer ↦ (ok answer, record { world = made.1; catalog_cache = some answer })
        | err e ↦ (err e, record s { world = made.1 })
      ]
    ]

-- `get_catalog_availability_entrypoint`
unfoldable pub get_catalog_availability_entrypoint : Result Bool → Action World (List Uuid)
unfolding get_available_catalog_item_ids
get_catalog_availability_entrypoint negated = get_available_catalog_item_ids negated

-- `get_publication_items_availability_entrypoint`
unfoldable pub get_publication_items_availability_entrypoint : String → Action World (List Uuid)
get_publication_items_availability_entrypoint link = raise not_implemented

-- `get_suggested_items`
unfoldable pub get_suggested_items : Action World (List Uuid)
get_suggested_items = pure []
