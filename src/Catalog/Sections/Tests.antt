-- ===== src/Catalog/Sections/Tests.antt =====
-- Tests of the sections of the catalog, and an instance of the theorem about them.
use mathlib.Core.List.{Perm}
use fast_api_example.Prelude.{Member, ◌↔◌, ℕ, ◌≡◌, refl, true, none, [], ◌∷◌, map}
use fast_api_example.Database.{Db, BaseOrm, FilterGroupOrm, empty_db}
use fast_api_example.Sorting.{IsSorted}
use fast_api_example.Catalog.Filters.{FilterGroup}
use fast_api_example.Catalog.Sections.{
  groups_by_category, filter_group, get_filter_groups_by_category,
}
use fast_api_example.Catalog.Sections.Sorted.{
  IsGroup, IsOfCategory, get_filter_groups_by_category-IsSorted,
}

abbrev base : ℕ → BaseOrm
base n = record { id = n; created_at = 0; updated_at = none }

abbrev shop : Db
shop = record empty_db {
  categories = record { base = base 1; link = "chairs"; title = "Chairs"; is_active = true } ∷ [];
  filter_groups =
      record { base = base 2; product_category_id = 1; title = "Wood" }
      ∷ record { base = base 3; product_category_id = 1; title = "Color" }
      ∷ record { base = base 4; product_category_id = 9; title = "Age" }
      ∷ [];
  filters =
      record { base = base 5; filter_group_id = 3; value = "red" }
      ∷ record { base = base 6; filter_group_id = 3; value = "blue" }
      ∷ [];
}

get_filter_groups_by_category-IsSorted_example :
    IsSorted (λ (group : FilterGroup). group.title) (get_filter_groups_by_category "chairs" shop)
    × Perm
        (get_filter_groups_by_category "chairs" shop)
        (map (filter_group shop) (groups_by_category "chairs" shop))
    × ((row : FilterGroupOrm)
        → Member row (groups_by_category "chairs" shop) ↔ IsOfCategory "chairs" shop row)
    × ((row : FilterGroupOrm) → IsGroup shop row (filter_group shop row))
get_filter_groups_by_category-IsSorted_example =
    get_filter_groups_by_category-IsSorted "chairs" shop

chairs_groups :
    map (λ group. group.title) (get_filter_groups_by_category "chairs" shop) ≡ "Color" ∷ "Wood" ∷ []
unfolding get_filter_groups_by_category
chairs_groups = refl

color_filters :
    map (λ group. map (λ f. f.value) group.filters) (get_filter_groups_by_category "chairs" shop)
    ≡ ("blue" ∷ "red" ∷ []) ∷ [] ∷ []
unfolding get_filter_groups_by_category
color_filters = refl
