-- ===== src/Transport/Catalog/Tests.antt =====
-- Tests of the handlers of the catalog, and an instance of the theorem about them.
use fast_api_example.Prelude.{
  ◌==◌, if◌then◌else◌, ℕ, ◌+◌, ◌*◌, ◌/◌, ◌≡◌, refl, true, false, none, some, List, [], ◌∷◌, ◌++◌,
  map,
}
use fast_api_example.Errors.{attribute_error, type_error}
use fast_api_example.Database.{ProductOrm, empty_db}
use fast_api_example.App.{Env, ok, err, ◌>>=◌}
use fast_api_example.Catalog.Products.{
  Attachment, CreateProductDto, create_product, add_attachments_to_product,
}
use fast_api_example.Files.{Pillow, Storage, Stored, upload_product_images}
use fast_api_example.Transport.Catalog.{
  CreateProductSchema, Forms, create_product_entrypoint, parce_create_product_form,
}
use fast_api_example.Transport.Catalog.Products.{AreShown, create_product_entrypoint_images}

-- Files are sizes.
abbrev pillow : Pillow (ℕ × ℕ) (Unit {0})
pillow = record {
  open_image = λ size. ok (record { width = size.0; height = size.1; pixels = tt });
  resize = λ img width height. ok (record { width = width; height = height; pixels = tt });
  save_webp = λ img. ok (img.width, img.height);
  scaled = λ a b limit. a * limit / b;
}

abbrev storage : Storage
storage = record {
  put_object = λ key. none;
  public_url = "https://s3";
  uuid_text = λ id. if id == 100 then "g" else if id == 105 then "p" else "i";
}

abbrev env : Env
env = record {
  uuid4 = λ n. n + 100;
  post_init = λ request. record {
    is_success = false;
    is_filled = false;
    error_code = none;
    details = none;
    body = err attribute_error;
  };
  assign = λ assigned. err attribute_error;
  payment_part = λ part. err attribute_error;
}

abbrev forms : Forms (ℕ × ℕ)
forms = record {
  physical_properties = λ s. ok s;
  filter_groups = λ s. err type_error;
  schema = λ schema. ok schema;
  product_dto = λ schema. ok (record {
    title = schema.title;
    category_link = schema.category_link;
    description = schema.description;
    physical_properties = some schema.physical_properties;
    filter_groups = schema.filter_groups;
  });
  bare_validation_error = type_error;
}

abbrev chair : CreateProductSchema (ℕ × ℕ)
chair = record {
  title = "Chair";
  description = none;
  category_link = "chairs";
  physical_properties = "{}";
  filter_groups =
      record { id = none; title = "Color"; filters = record { id = none; value = "red" } ∷ [] }
      ∷ [];
  images = (1000, 500) ∷ (30, 40) ∷ [];
}

abbrev start : Stored (ℕ × ℕ)
start = record {
  world = record {
    db = record empty_db {
      categories =
          record {
            base = record { id = 1; created_at = 0; updated_at = none };
            link = "chairs";
            title = "Chairs";
            is_active = true;
          }
          ∷ [];
    };
    web = record { cart = none; checkout_data = none };
    user = none;
    drawn = 0;
    asked = [];
  };
  objects = [];
}

abbrev finish : Stored (ℕ × ℕ)
finish = (create_product_entrypoint forms env storage pillow 7 chair start).1

chair_made : create_product_entrypoint forms env storage pillow 7 chair start ≡ (ok 104, finish)
unfolding create_product_entrypoint create_product upload_product_images add_attachments_to_product
    ◌>>=◌
chair_made = refl

create_product_entrypoint_images_example :
    (dto : CreateProductDto) × (product : ProductOrm) × (attachments : List Attachment)
    × (forms.product_dto chair ≡ ok dto)
    × (product.id ≡ 104)
    × (product.title ≡ dto.title)
    × (finish.world.db.products ≡ start.world.db.products ++ product ∷ [])
    × AreShown forms env storage pillow 7 chair 104 attachments start finish
create_product_entrypoint_images_example =
    create_product_entrypoint_images forms env storage pillow 7 chair start finish 104 chair_made tt

chair_filters : map (λ f. f.value) finish.world.db.filters ≡ "red" ∷ []
unfolding create_product_entrypoint create_product upload_product_images add_attachments_to_product
    ◌>>=◌
chair_filters = refl

-- Whatever is wrong with the form, the exception is the one that `RequestValidationError` without
-- an argument ends with.
form_refused : parce_create_product_form forms [] "Chair" none "chairs" "{}" "[" ≡ err type_error
unfolding parce_create_product_form
form_refused = refl
