-- ===== src/Catalog/Products/Drawing.antt =====
-- The parts of `create_product` (src/services/catalog/service.py) that read and draw, and write no
-- table.
use fast_api_example.Prelude.{filter, ◌≡◌, Option, none, some, List, [], ◌∷◌}
use fast_api_example.Database.{Uuid, Instant, Db, ProductCategoryOrm, FilterGroupOrm}
use fast_api_example.App.{Keeps, keeping, Env, World, Action, draw, new_base, ◌>>=◌}
use fast_api_example.Catalog.Filters.{FilterDto, FilterGroup}
use fast_api_example.Catalog.Products.{
  db_filter_group, id_or_draw, base_with, group_filters, product_filters, filter_links,
}

-- The action reads and draws, and writes no table.
abbrev pub WritesNothing : {A : Type 0} → Action World A → Type 0
WritesNothing action = (db : Db) → Keeps (λ (w : World). w.db ≡ db) action

module _ (env : Env) where
  id_or_draw-WritesNothing : (id : Option Uuid) → WritesNothing (id_or_draw env id)
  unfolding id_or_draw draw ◌>>=◌
  id_or_draw-WritesNothing none db w h = h
  id_or_draw-WritesNothing (some id) db w h = h

  module _ (filed_at : Instant) where
    base_with-WritesNothing : (id : Uuid) → WritesNothing (base_with env filed_at id)
    unfolding base_with new_base draw ◌>>=◌
    base_with-WritesNothing id db w h = h

    new_base-WritesNothing : WritesNothing (new_base env filed_at)
    unfolding new_base draw ◌>>=◌
    new_base-WritesNothing db w h = h

    group_filters-WritesNothing :
        (group : FilterGroupOrm) (filters : List FilterDto)
        → WritesNothing (group_filters env filed_at group filters)
    unfolding group_filters
    group_filters-WritesNothing group [] db = search (keeping)
    group_filters-WritesNothing group (filter ∷ filters) db =
        search
          (
            keeping,
            id_or_draw-WritesNothing,
            base_with-WritesNothing,
            group_filters-WritesNothing group filters,
          )
          depth 12

    db_filter_group-WritesNothing :
        (category : Option ProductCategoryOrm) (dto : FilterGroup)
        → WritesNothing (db_filter_group env filed_at category dto)
    unfolding db_filter_group
    db_filter_group-WritesNothing category dto db =
        search (keeping, id_or_draw-WritesNothing, base_with-WritesNothing) depth 12

    pub product_filters-WritesNothing :
        (category : Option ProductCategoryOrm) (dtos : List FilterGroup)
        → WritesNothing (product_filters env filed_at category dtos)
    unfolding product_filters
    product_filters-WritesNothing category [] db = search (keeping)
    product_filters-WritesNothing category (dto ∷ dtos) db =
        search
          (
            keeping,
            db_filter_group-WritesNothing,
            group_filters-WritesNothing,
            product_filters-WritesNothing category dtos,
          )
          depth 12

    pub filter_links-WritesNothing :
        (product_id : Uuid) (ids : List Uuid)
        → WritesNothing (filter_links env filed_at product_id ids)
    unfolding filter_links
    filter_links-WritesNothing product_id [] db = search (keeping)
    filter_links-WritesNothing product_id (id ∷ ids) db =
        search (keeping, new_base-WritesNothing, filter_links-WritesNothing product_id ids) depth 12
