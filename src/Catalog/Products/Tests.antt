-- ===== src/Catalog/Products/Tests.antt =====
-- Tests of the products of the catalog.
use fast_api_example.Prelude.{◌≡◌, refl, false, some, [], ◌∷◌}
use fast_api_example.Catalog.Products.{distinct}
use fast_api_example.Catalog.Products.Shown.{filled_json}

each_once : distinct [] (3 ∷ 5 ∷ 3 ∷ []) ≡ 3 ∷ 5 ∷ []
unfolding distinct
each_once = refl

empty_properties : filled_json (some "{}") ≡ false
unfolding filled_json
empty_properties = refl
