-- ===== src/Catalog/Publications/Tests.antt =====
-- An instance of the theorem about the publications.
use fast_api_example.Prelude.{
  Member, ◌↔◌, pos, filter, All, ◌≡◌, refl, Bool, true, false, none, List, [], ◌∷◌, map,
}
use fast_api_example.Database.{Uuid, BaseOrm, CatalogItemOrm, PublicationOrm, empty_db}
use fast_api_example.App.{World, ok, ◌>>=◌}
use fast_api_example.Catalog.Filters.{prepare_filter_groups}
use fast_api_example.Catalog.Publications.{
  Validated, Publication, has_active, active_items_of, get_publications,
}
use fast_api_example.Catalog.Publications.Listed.{HasActive, IsActiveOf, get_publications-active}

abbrev base_of : Uuid → BaseOrm
base_of id = record { id = id; created_at = 0; updated_at = none }

abbrev row_of : Uuid → Uuid → Bool → CatalogItemOrm
row_of id publication_id is_active = record {
  base = base_of id;
  publication_id = publication_id;
  product_id = 60;
  credit_plan_id = none;
  price = pos 100;
  is_active = is_active;
  index = none;
  quantity = none;
  ordered_quantity = pos 0;
}

abbrev post : Uuid → PublicationOrm
post id = record {
  base = base_of id;
  preorder_id = none;
  type = "STOCK";
  link = "p";
  delivery_cost_included = none;
}

abbrev accepts : Validated
accepts = record {
  category = λ row. ok (record { id = 70; title = "t"; link = "l" });
  physical_properties = λ text. ok "{}";
  payment_part = λ part. ok (record { sum = part.sum; deadline = "" });
  preorder = λ row. ok (record { id = 0; title = ""; expected_arrival = none; status = "" });
}

-- Of four items two are active, and of two publications one has an active item.
abbrev shop : World
shop = record {
  db = record empty_db {
    catalog_items =
        row_of 1 50 true ∷ row_of 2 50 false ∷ row_of 3 51 false ∷ row_of 4 50 true ∷ [];
    publications = post 50 ∷ post 51 ∷ [];
    products =
        record {
          base = base_of 60;
          category_id = 70;
          title = "figure";
          description = none;
          physical_properties = none;
        }
        ∷ [];
  };
  web = record { cart = none; checkout_data = none };
  user = none;
  drawn = 0;
  asked = [];
}

abbrev listed : List Publication
listed = elim (get_publications accepts shop).0 [ ok publications ↦ publications | _ ↦ [] ]

shop-listed : get_publications accepts shop ≡ (ok listed, shop)
unfolding get_publications ◌>>=◌ prepare_filter_groups
shop-listed = refl

listed_ids : map (λ p. map (λ item. item.id) p.items) listed ≡ (1 ∷ 4 ∷ []) ∷ []
unfolding get_publications ◌>>=◌ prepare_filter_groups
listed_ids = refl

get_publications-active_example :
    (shop ≡ shop)
    × (map (λ p. p.id) listed ≡ map (λ p. p.id) (filter (has_active shop.db) shop.db.publications))
    × All
        (λ p. map (λ item. item.id) p.items ≡ map (λ item. item.id) (active_items_of shop.db p.id))
        listed
    × ((id : Uuid) → Member id (map (λ p. p.id) listed) ↔ HasActive shop.db id)
    × All
        (λ p.
          (id : Uuid)
          → Member id (map (λ item. item.id) p.items)
            ↔ ((item : CatalogItemOrm) × IsActiveOf shop.db p.id item × (item.id ≡ id)))
        listed
get_publications-active_example = get_publications-active accepts shop shop listed shop-listed
