-- ===== src/Catalog/Publishing/Tests.antt =====
-- Tests of the publishing, and instances of the theorems about it.
use fast_api_example.Prelude.{pos, ℕ, ◌+◌, ◌≡◌, refl, false, none, some, List, [], ◌∷◌, map}
use fast_api_example.Errors.{attribute_error}
use fast_api_example.Database.{empty_db}
use fast_api_example.App.{Env, World, ok, err, ◌>>=◌}
use fast_api_example.Catalog.Publications.{Validated, active_items_of}
use fast_api_example.Catalog.Publishing.{CreateCatalogItemDto, create_publication, get_publication}
use fast_api_example.Catalog.Publishing.Created.{
  kept_of, asked_of, numbers, create_publication_items,
}
use fast_api_example.Catalog.Publishing.Detailed.{get_publication_created}

abbrev env : Env
env = record {
  uuid4 = λ n. n + 100;
  post_init = λ request. record {
    is_success = false;
    is_filled = false;
    error_code = none;
    details = none;
    body = err attribute_error;
  };
  assign = λ assigned. err attribute_error;
  payment_part = λ part. err attribute_error;
}

abbrev start : World
start = record {
  db = empty_db;
  web = record { cart = none; checkout_data = none };
  user = none;
  drawn = 0;
  asked = [];
}

abbrev chair : CreateCatalogItemDto
chair = record {
  product_id = 1;
  price = pos 5000;
  quantity = some (pos 3);
  discount = none;
  credit_info = none;
}

abbrev table : CreateCatalogItemDto
table = record chair { product_id = 2; quantity = none }

abbrev pair : List CreateCatalogItemDto
pair = chair ∷ table ∷ []

create_publication_items_example :
    let (r, w') = create_publication env 7 "chairs" pair none start in
    (id : ℕ) × (r ≡ ok id)
    × (map kept_of (active_items_of w'.db id) ≡ map asked_of pair)
    × (map (λ row. row.index) (active_items_of w'.db id) ≡ numbers pair)
create_publication_items_example = create_publication_items env 7 "chairs" pair none start tt

abbrev reads : Validated
reads = record {
  category = λ row. err attribute_error;
  physical_properties = λ properties. err attribute_error;
  payment_part = λ part. err attribute_error;
  preorder = λ row. err attribute_error;
}

get_publication_created_example :
    let (r, w') = create_publication env 7 "chairs" pair none start in
    (id : ℕ) × (r ≡ ok id) × (get_publication reads id w' ≡ (err attribute_error, w'))
get_publication_created_example =
    get_publication_created reads env 7 "chairs" chair (table ∷ []) none start tt

single_unnumbered :
    map
      (λ row. row.index)
      (active_items_of (create_publication env 7 "chair" (chair ∷ []) none start).1.db 101)
    ≡ none ∷ []
unfolding create_publication active_items_of ◌>>=◌
single_unnumbered = refl
