-- ===== src/Catalog/Publishing/Created.antt =====
-- What a publication that was just created holds.
use fast_api_example.Prelude.{
  ℤ, ◌==◌, length, filter, All, ℕ, suc, ◌+◌, String, ◌≡◌, refl, ap, ◌∙◌, Bool, true, false, ◌&&◌,
  Option, none, some, List, [], ◌∷◌, ◌++◌, map, arith,
}
use fast_api_example.Database.{Uuid, Instant, Db, CatalogItemOrm}
use fast_api_example.App.{Env, World, ok, new_base, draw, ◌>>=◌}
use fast_api_example.Catalog.Publications.{active_items_of}
use fast_api_example.Catalog.Publishing.{
  CreateCatalogItemDto, NewCatalogItem, orm_catalog_items, unnumber_single, catalog_item_row,
  file_publication, create_publication,
}

-- The items that `orm_catalog_items` makes, with the identifiers from the one on that is drawn
-- next.
made_items : Env → Instant → ℕ → ℕ → List CreateCatalogItemDto → List NewCatalogItem
made_items env filed_at drawn index [] = []
made_items env filed_at drawn index (item ∷ items) =
    record {
      base = record { id = env.uuid4 drawn; created_at = filed_at; updated_at = some filed_at };
      product_id = item.product_id;
      price = item.price;
      quantity = item.quantity;
      index = some index;
    }
    ∷ made_items env filed_at (drawn + 1) (suc index) items

orm_catalog_items_lem :
    (env : Env) (filed_at : Instant) (index : ℕ) (items : List CreateCatalogItemDto) (w : World)
    → orm_catalog_items env filed_at index items w ≡ (
      ok (made_items env filed_at w.drawn index items),
      record w { drawn = w.drawn + length items },
    )
unfolding orm_catalog_items made_items new_base draw ◌>>=◌
orm_catalog_items_lem env filed_at index [] w = ground arith
orm_catalog_items_lem env filed_at index (item ∷ items) w =
    rw (orm_catalog_items_lem env filed_at (suc index) items (record w { drawn = w.drawn + 1 }))
      (ground arith)

made_of : Env → Instant → World → List CreateCatalogItemDto → List NewCatalogItem
unfolding made_items
made_of env filed_at w items = unnumber_single (made_items env filed_at w.drawn 0 items)

-- The state after a publication was created, and its identifier.
id_of_created : Env → World → List CreateCatalogItemDto → Uuid
id_of_created env w items = env.uuid4 (w.drawn + length items)

create_publication_lem :
    (env : Env) (filed_at : Instant) (link : String) (items : List CreateCatalogItemDto)
    (delivery_cost_included : Option String) (w : World)
    → create_publication env filed_at link items delivery_cost_included w ≡ (
      ok (id_of_created env w items),
      file_publication
          (record {
            base = record {
              id = id_of_created env w items;
              created_at = filed_at;
              updated_at = some filed_at;
            };
            preorder_id = none;
            type = "STOCK";
            link = link;
            delivery_cost_included = delivery_cost_included;
          })
          (made_of env filed_at w items)
          (record w { drawn = w.drawn + length items + 1 }),
    )
unfolding create_publication new_base draw ◌>>=◌ id_of_created made_of
create_publication_lem env filed_at link items delivery_cost_included w =
    rw (orm_catalog_items_lem env filed_at 0 items w) refl

module _ {A : Type 0} where
  filter-All : (p : A → Bool) (xs : List A) → All (λ x. p x ≡ true) xs → filter p xs ≡ xs
  filter-All p [] h = refl
  filter-All p (x ∷ xs) h = rw h.0 (ap (λ l. x ∷ l) (filter-All p xs h.1))

  filter-none_append :
      (p : A → Bool) (xs ys : List A)
      → All (λ x. p x ≡ false) xs
      → filter p (xs ++ ys) ≡ filter p ys
  filter-none_append p [] ys h = refl
  filter-none_append p (x ∷ xs) ys h = rw h.0 (filter-none_append p xs ys h.1)

rows_active :
    (id : Uuid) (items : List NewCatalogItem)
    → All
        (λ item. (item.publication_id == id && item.is_active) ≡ true)
        (map (catalog_item_row id) items)
unfolding catalog_item_row
rows_active id [] = tt
rows_active id (item ∷ items) = (ground arith, rows_active id items)

-- No catalog item refers to this publication yet.
abbrev pub IsUnused : Uuid → Db → Type 0
IsUnused id db = All (λ item. (item.publication_id == id) ≡ false) db.catalog_items

unused_inactive :
    (id : Uuid) (rows : List CatalogItemOrm)
    → All (λ item. (item.publication_id == id) ≡ false) rows
    → All (λ item. (item.publication_id == id && item.is_active) ≡ false) rows
unused_inactive id [] h = tt
unused_inactive id (row ∷ rows) h = (rw h.0 refl, unused_inactive id rows h.1)

-- What a request says of an item, and what a row says of it.
abbrev pub asked_of : CreateCatalogItemDto → Uuid × ℤ × Option ℤ
asked_of item = (item.product_id, item.price, item.quantity)

abbrev pub kept_of : CatalogItemOrm → Uuid × ℤ × Option ℤ
kept_of item = (item.product_id, item.price, item.quantity)

-- The numbers of items in order, from this one on.
abbrev pub numbers_from : ℕ → List CreateCatalogItemDto → List (Option ℕ)
numbers_from n [] = []
numbers_from n (item ∷ items) = some n ∷ numbers_from (suc n) items

-- A single item has no number.
abbrev pub numbers : List CreateCatalogItemDto → List (Option ℕ)
numbers [] = []
numbers (item ∷ []) = none ∷ []
numbers (item ∷ (next ∷ items)) = numbers_from 0 (item ∷ next ∷ items)

made_items-kept :
    (env : Env) (filed_at : Instant) (drawn index : ℕ) (id : Uuid)
    (items : List CreateCatalogItemDto)
    → (map kept_of (map (catalog_item_row id) (made_items env filed_at drawn index items))
        ≡ map asked_of items)
      × (map
            (λ row. row.index)
            (map (catalog_item_row id) (made_items env filed_at drawn index items))
          ≡ numbers_from index items)
unfolding made_items catalog_item_row
made_items-kept env filed_at drawn index id [] = (refl, refl)
made_items-kept env filed_at drawn index id (item ∷ items) =
    let (kept, numbered) = made_items-kept env filed_at (drawn + 1) (suc index) id items in
    (rw kept refl, rw numbered refl)

made_of-kept :
    (env : Env) (filed_at : Instant) (w : World) (id : Uuid) (items : List CreateCatalogItemDto)
    → (map kept_of (map (catalog_item_row id) (made_of env filed_at w items)) ≡ map asked_of items)
      × (map (λ row. row.index) (map (catalog_item_row id) (made_of env filed_at w items))
          ≡ numbers items)
unfolding made_of unnumber_single made_items catalog_item_row
made_of-kept env filed_at w id [] = (refl, refl)
made_of-kept env filed_at w id (item ∷ []) = (refl, refl)
made_of-kept env filed_at w id (item ∷ (next ∷ items)) =
    let (kept, numbered) = made_items-kept env filed_at (w.drawn + 1 + 1) 2 id items in
    (rw kept refl, rw numbered refl)

module _ (env : Env) (filed_at : Instant) (link : String) (items : List CreateCatalogItemDto)
    (delivery_cost_included : Option String) (w : World) where
  -- What a publication is created with can be read back: its active items are those of the
  -- request, in order, with their product, price and quantity, numbered from zero, but that a
  -- single item has no number. It holds where no item refers to the new identifier before.
  pub create_publication_items :
      IsUnused (env.uuid4 (w.drawn + length items)) w.db
      → let (r, w') = create_publication env filed_at link items delivery_cost_included w in
        (id : Uuid) × (r ≡ ok id)
        × (map kept_of (active_items_of w'.db id) ≡ map asked_of items)
        × (map (λ row. row.index) (active_items_of w'.db id) ≡ numbers items)
  unfolding active_items_of file_publication id_of_created
  create_publication_items unused =
      let id = id_of_created env w items in
      let rows = map (catalog_item_row id) (made_of env filed_at w items) in
      let active : filter (λ item. item.publication_id == id && item.is_active)
            (w.db.catalog_items ++ rows)
          ≡ rows =
        filter-none_append _ w.db.catalog_items rows (unused_inactive id w.db.catalog_items unused)
        ∙ filter-All _ rows (rows_active id (made_of env filed_at w items)) in
      let (kept, numbered) = made_of-kept env filed_at w id items in
      rw (create_publication_lem env filed_at link items delivery_cost_included w) (
        id,
        refl,
        ap (map kept_of) active ∙ kept,
        ap (map (λ (row : CatalogItemOrm). row.index)) active ∙ numbered,
      )
