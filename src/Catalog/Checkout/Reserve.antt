-- ===== src/Catalog/Checkout/Reserve.antt =====
-- `CatalogService.reserve_catalog_items` (src/services/catalog/service.py) and the table constraint
-- `quantity_limit` (src/database/models.py).
use fast_api_example.Prelude.{
  ◌+ℤ◌, ℤ, pos, ◌≤ℤ◌, leb_ℤ, +ℤ-zero, if◌then◌else◌, Bool-cases, Option-cases, any, All, Member,
  All_of, map-Member, any-none, none_of_any, All-intro, Member-map, ◌≡◌, refl, sym, ap, ◌∙◌, ◌⊎◌,
  inl, inr, Bool, true, false, not, ◌&&◌, Option, none, some, List, [], ◌∷◌, map, arith,
}
use fast_api_example.Errors.{raise_class, catalog_item_out_of_stock}
use fast_api_example.Database.{Uuid, CatalogItemOrm, quantity_limit}
use fast_api_example.App.{World, ok, err, ◌>>=◌}
use fast_api_example.Catalog.Models.{ShortCheckoutItem}
use fast_api_example.Catalog.Checkout.{requested, order_more, is_some, reserve_catalog_items}

abbrev pub or_zero : Option ℤ → ℤ
or_zero none = pos 0
or_zero (some quantity) = quantity

-- The pieces of an item that are asked for.
abbrev pub pieces : List ShortCheckoutItem → Uuid → ℤ
pieces items id = or_zero (requested items id)

-- A number is within a limit, where there is one.
abbrev pub Holds : Option ℤ → ℤ → Type 0
Holds none n = Unit
Holds (some total) n = n ≤ℤ total

Holds-test :
    (total : Option ℤ) (n : ℤ)
    → Holds total n
    → elim total [ none ↦ true | some t ↦ leb_ℤ n t ] ≡ true
Holds-test none n h = refl
Holds-test (some t) n h = ground arith

abbrev pub add_pieces : List ShortCheckoutItem → CatalogItemOrm → CatalogItemOrm
add_pieces items row = record row { ordered_quantity = row.ordered_quantity +ℤ pieces items row.id }

-- The table after a reservation: each row with the pieces asked of it.
abbrev pub reserved : List ShortCheckoutItem → World → World
reserved items w = record w {
  db = record w.db { catalog_items = map (add_pieces items) w.db.catalog_items };
}

add_pieces_case :
    (row : CatalogItemOrm) (q : Option ℤ)
    → elim q [
      | none ↦ row
      | some quantity ↦ record row { ordered_quantity = row.ordered_quantity +ℤ quantity }
    ]
      ≡ record row {
        ordered_quantity =
            row.ordered_quantity +ℤ elim q [ none ↦ pos 0 | some quantity ↦ quantity ];
      }
add_pieces_case row none = rw (+ℤ-zero row.ordered_quantity) refl
add_pieces_case row (some q) = refl

order_more-pieces :
    (items : List ShortCheckoutItem) (row : CatalogItemOrm)
    → order_more items row ≡ add_pieces items row
unfolding order_more
order_more-pieces items row = add_pieces_case row (requested items row.id)

order_more-map :
    (items : List ShortCheckoutItem) (rows : List CatalogItemOrm)
    → map (order_more items) rows ≡ map (add_pieces items) rows
order_more-map items [] = refl
order_more-map items (row ∷ rows) = rw (order_more-pieces items row, order_more-map items rows) refl

-- A row that the reservation writes and that breaks the constraint.
abbrev pub is_out : List ShortCheckoutItem → CatalogItemOrm → Bool
is_out items row = is_some (requested items row.id) && not (quantity_limit row)

reserve_catalog_items-run :
    (items : List ShortCheckoutItem) (w : World)
    → (b : Bool) → any (is_out items) (map (add_pieces items) w.db.catalog_items) ≡ b
    → reserve_catalog_items items w
      ≡ (if b then (err (raise_class catalog_item_out_of_stock), w) else (ok tt, reserved items w))
unfolding reserve_catalog_items ◌>>=◌
reserve_catalog_items-run items w true e = rw (order_more-map items w.db.catalog_items, e) refl
reserve_catalog_items-run items w false e = rw (order_more-map items w.db.catalog_items, e) refl

pub reserve_catalog_items-cases :
    (items : List ShortCheckoutItem) (w : World)
    → (reserve_catalog_items items w ≡ (err (raise_class catalog_item_out_of_stock), w))
      ⊎ ((reserve_catalog_items items w ≡ (ok tt, reserved items w))
          × (any (is_out items) (map (add_pieces items) w.db.catalog_items) ≡ false))
reserve_catalog_items-cases items w =
    elim (Bool-cases (any (is_out items) (map (add_pieces items) w.db.catalog_items))) [
      | inl e ↦ inl (reserve_catalog_items-run items w true e)
      | inr e ↦ inr (reserve_catalog_items-run items w false e, e)
    ]

abbrev more : CatalogItemOrm → Option ℤ → CatalogItemOrm
more row q = record row { ordered_quantity = row.ordered_quantity +ℤ or_zero q }

kept_row :
    (items : List ShortCheckoutItem) (row : CatalogItemOrm)
    → requested items row.id ≡ none
    → add_pieces items row ≡ row
kept_row items row e = ap (more row) e ∙ rw (+ℤ-zero row.ordered_quantity) refl

more_row :
    (items : List ShortCheckoutItem) (row : CatalogItemOrm) (q : ℤ)
    → requested items row.id ≡ some q
    → add_pieces items row ≡ record row { ordered_quantity = row.ordered_quantity +ℤ q }
more_row items row q e = ap (more row) e

limit_of_in :
    (items : List ShortCheckoutItem) (y : CatalogItemOrm) (q : ℤ)
    → requested items y.id ≡ some q
    → is_out items y ≡ false
    → quantity_limit y ≡ true
limit_of_in items y q e out = ground arith

limit_kept :
    (items : List ShortCheckoutItem) (row y : CatalogItemOrm)
    → y ≡ add_pieces items row
    → quantity_limit row ≡ true
    → is_out items y ≡ false
    → quantity_limit y ≡ true
unfolding quantity_limit
limit_kept items row y made h out = elim (Option-cases (requested items row.id)) [
  | inl e ↦ rw (made ∙ kept_row items row e) h
  | inr (q, e) ↦
      (let ey : requested items y.id ≡ some q = ap (λ r. requested items r.id) made ∙ e in
        limit_of_in items y q ey out)
]

-- A reservation keeps the limit of every item: where no item has more pieces ordered than there
-- are, `reserve_catalog_items` leaves the table so, whether it succeeds or not.
pub reserve_catalog_items-quantity_limit :
    (items : List ShortCheckoutItem) (w : World)
    → All (λ row. quantity_limit row ≡ true) w.db.catalog_items
    → All (λ row. quantity_limit row ≡ true) (reserve_catalog_items items w).1.db.catalog_items
reserve_catalog_items-quantity_limit items w h = elim (reserve_catalog_items-cases items w) [
  | inl e ↦ rw e h
  | inr (e, none_out) ↦ rw e (
      All-intro (λ row. quantity_limit row ≡ true) (map (add_pieces items) w.db.catalog_items)
        (λ y m.
          let (row, there, made) = Member-map (add_pieces items) w.db.catalog_items y m in
          limit_kept items row y made
            (All_of (λ row. quantity_limit row ≡ true) w.db.catalog_items row h there)
            (none_of_any (is_out items) (map (add_pieces items) w.db.catalog_items) y none_out m)))
]

-- A row has room for so many pieces.
abbrev pub Fits : CatalogItemOrm → ℤ → Type 0
Fits row quantity = Holds row.quantity (row.ordered_quantity +ℤ quantity)

Fits-limit :
    (row : CatalogItemOrm) (q : ℤ)
    → Fits row q
    → quantity_limit (record row { ordered_quantity = row.ordered_quantity +ℤ q }) ≡ true
unfolding quantity_limit
Fits-limit row q h = Holds-test row.quantity (row.ordered_quantity +ℤ q) h

not_out :
    (items : List ShortCheckoutItem) (row y : CatalogItemOrm)
    → y ≡ add_pieces items row
    → ((quantity : ℤ) → requested items row.id ≡ some quantity → Fits row quantity)
    → is_out items y ≡ false
unfolding quantity_limit
not_out items row y made fits = elim (Option-cases (requested items row.id)) [
  | inl e ↦
      (let ey : requested items y.id ≡ none = ap (λ r. requested items r.id) made ∙ e in rw ey refl)
  | inr (q, e) ↦
      (let ey : requested items y.id ≡ some q = ap (λ r. requested items r.id) made ∙ e in
        let more : y ≡ record row { ordered_quantity = row.ordered_quantity +ℤ q } =
          made ∙ more_row items row q e in
        rw (ey, ap quantity_limit more ∙ Fits-limit row q (fits q e)) refl)
]

pub reserve_catalog_items-ok :
    (items : List ShortCheckoutItem) (w : World)
    → ((row : CatalogItemOrm) (quantity : ℤ)
        → Member row w.db.catalog_items
        → requested items row.id ≡ some quantity
        → Fits row quantity)
    → reserve_catalog_items items w ≡ (ok tt, reserved items w)
reserve_catalog_items-ok items w fits = reserve_catalog_items-run items w false (
    any-none (is_out items) (map (add_pieces items) w.db.catalog_items) (λ y m.
      let (row, there, made) = Member-map (add_pieces items) w.db.catalog_items y m in
      not_out items row y made (λ quantity e. fits row quantity there e)))

limit-Holds :
    (total : Option ℤ) (n : ℤ)
    → elim total [ none ↦ true | some t ↦ leb_ℤ n t ] ≡ true
    → Holds total n
limit-Holds none n h = tt
limit-Holds (some t) n h = ground arith

out_of_Fits :
    (items : List ShortCheckoutItem) (row : CatalogItemOrm) (quantity : ℤ)
    → requested items row.id ≡ some quantity
    → is_out items (add_pieces items row) ≡ false
    → Fits row quantity
unfolding quantity_limit
out_of_Fits items row quantity e out = limit-Holds row.quantity (row.ordered_quantity +ℤ quantity) (
    sym (ap quantity_limit (more_row items row quantity e))
    ∙ limit_of_in items (add_pieces items row) quantity e out)

-- A reservation that asks of some item more pieces than there are left is refused as a whole: the
-- answer is `CatalogItemOutOfStockError`, and nothing is changed.
pub reserve_catalog_items-out_of_stock :
    (items : List ShortCheckoutItem) (w : World) (row : CatalogItemOrm) (quantity : ℤ)
    → Member row w.db.catalog_items
    → requested items row.id ≡ some quantity
    → (Fits row quantity → ⊥)
    → reserve_catalog_items items w ≡ (err (raise_class catalog_item_out_of_stock), w)
reserve_catalog_items-out_of_stock items w row quantity there e full =
    elim (reserve_catalog_items-cases items w) [
      | inl refused ↦ refused
      | inr (done, none_out) ↦ absurd (
          full (
            out_of_Fits items row quantity e (
              none_of_any (is_out items) (map (add_pieces items) w.db.catalog_items)
                (add_pieces items row) none_out
                (map-Member (add_pieces items) w.db.catalog_items row there))))
    ]
