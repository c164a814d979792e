-- ===== src/Catalog/Sections/Sorted.antt =====
-- The order of the filter groups of a category: `get_filter_groups_by_category`.
use mathlib.Core.List.{Perm}
use fast_api_example.Prelude.{
  Bool, ◌&&◌, any, str_eq, eq_iff, arith, ◌↔◌, Member, Member-filter, filter-Member, any-Member,
  Member-any, ◌==◌, filter, String, ◌≡◌, refl, some, map,
}
use fast_api_example.Sorting.{IsSorted, sorted_by-IsSorted, sorted_by-perm}
use fast_api_example.Database.{Db, FilterGroupOrm, ProductCategoryOrm}
use fast_api_example.Catalog.Filters.{FilterDto, FilterGroup, filter_dto}
use fast_api_example.Catalog.Sections.{
  groups_by_category, filter_group, get_filter_groups_by_category,
}

-- A group with its filters in order, beside the row and the rows of its filters.
abbrev pub IsGroup : Db → FilterGroupOrm → FilterGroup → Type 0
IsGroup db row group =
    (group.id ≡ some row.id)
    × (group.title ≡ row.title)
    × IsSorted (λ (f : FilterDto). f.value) group.filters
    × Perm group.filters (map filter_dto (filter (λ f. f.filter_group_id == row.id) db.filters))

filter_group-IsGroup : (db : Db) (row : FilterGroupOrm) → IsGroup db row (filter_group db row)
unfolding filter_group
filter_group-IsGroup db row =
    let filters = map filter_dto (filter (λ f. f.filter_group_id == row.id) db.filters) in
    (refl, refl, sorted_by-IsSorted (λ f. f.value) filters, sorted_by-perm (λ f. f.value) filters)

-- The rows of the groups of a category with this link.
abbrev pub IsOfCategory : String → Db → FilterGroupOrm → Type 0
IsOfCategory category_link db row =
    Member row db.filter_groups
    × ((category : ProductCategoryOrm) × Member category db.categories
        × (category.id ≡ row.product_category_id)
        × (category.link ≡ category_link))

groups_by_category_iff :
    (category_link : String) (db : Db) (row : FilterGroupOrm)
    → Member row (groups_by_category category_link db) ↔ IsOfCategory category_link db row
unfolding groups_by_category
groups_by_category_iff category_link db row =
    let is_its : FilterGroupOrm → ProductCategoryOrm → Bool = λ group category.
      category.id == group.product_category_id && str_eq category.link category_link in
    let has : FilterGroupOrm → Bool = λ group. any (is_its group) db.categories in
    (
      (λ m.
          (let (there, one) = Member-filter has db.filter_groups row m in
            let (category, on_file, its) = any-Member (is_its row) db.categories one in
            (
              there,
              (
                category,
                on_file,
                ground arith,
                (eq_iff category.link category_link).0 (ground arith),
              ),
            ))),
      (λ h.
          (let (there, (category, on_file, id, link)) = h in
            filter-Member has db.filter_groups row there (
              Member-any (is_its row) db.categories category on_file
                (ground (arith, (eq_iff category.link category_link).1 link))))),
    )

-- The groups that are listed for a link are those of the rows whose category is on file with this
-- link, each as often as it is there; they are in the order of their titles, and each has exactly
-- its own filters, in the order of their values.
pub get_filter_groups_by_category-IsSorted :
    (category_link : String) (db : Db)
    → IsSorted
        (λ (group : FilterGroup). group.title)
        (get_filter_groups_by_category category_link db)
      × Perm
          (get_filter_groups_by_category category_link db)
          (map (filter_group db) (groups_by_category category_link db))
      × ((row : FilterGroupOrm)
          → Member row (groups_by_category category_link db) ↔ IsOfCategory category_link db row)
      × ((row : FilterGroupOrm) → IsGroup db row (filter_group db row))
unfolding get_filter_groups_by_category
get_filter_groups_by_category-IsSorted category_link db =
    let groups = map (filter_group db) (groups_by_category category_link db) in
    (
      sorted_by-IsSorted (λ group. group.title) groups,
      sorted_by-perm (λ group. group.title) groups,
      groups_by_category_iff category_link db,
      filter_group-IsGroup db,
    )
