-- ===== src/Catalog/Filters/Tests.antt =====
-- An instance of the theorem about the filter groups.
use fast_api_example.Prelude.{String, ◌≡◌, refl, none, some, List, [], ◌∷◌}
use fast_api_example.Database.{Uuid, Db, BaseOrm, empty_db}
use fast_api_example.App.{ok}
use fast_api_example.Catalog.Filters.{FilterGroup, filters_of, prepare_filter_groups}
use fast_api_example.Catalog.Filters.Grouped.{
  HasTitles, titled, dtos_titled, prepare_filter_groups-titled,
}

abbrev base_of : Uuid → BaseOrm
base_of id = record { id = id; created_at = 0; updated_at = none }

abbrev shop : Db
shop = record empty_db {
  filter_groups =
      record { base = base_of 1; product_category_id = 70; title = "size" }
      ∷ record { base = base_of 2; product_category_id = 70; title = "hero" }
      ∷ [];
  filters =
      record { base = base_of 11; filter_group_id = 1; value = "S" }
      ∷ record { base = base_of 12; filter_group_id = 2; value = "Link" }
      ∷ record { base = base_of 13; filter_group_id = 1; value = "M" }
      ∷ record { base = base_of 14; filter_group_id = 1; value = "L" }
      ∷ [];
  product_filters =
      record { base = base_of 21; filter_id = 11; product_id = 60 }
      ∷ record { base = base_of 22; filter_id = 12; product_id = 60 }
      ∷ record { base = base_of 23; filter_id = 13; product_id = 60 }
      ∷ [];
}

abbrev groups : List FilterGroup
groups =
    record {
      id = some 1;
      title = "size";
      filters = record { id = some 11; value = "S" } ∷ record { id = some 13; value = "M" } ∷ [];
    }
    ∷ record { id = some 2; title = "hero"; filters = record { id = some 12; value = "Link" } ∷ [] }
    ∷ []

shop-groups : prepare_filter_groups shop 60 ≡ ok groups
unfolding prepare_filter_groups
shop-groups = refl

prepare_filter_groups-titled_example :
    HasTitles groups
    × ((title : String) → titled title groups ≡ dtos_titled shop title (filters_of 60 shop))
prepare_filter_groups-titled_example = prepare_filter_groups-titled shop 60 groups shop-groups
