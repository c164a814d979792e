-- ===== src/User/Adjusted.antt =====
-- `update_cart_items` of src/services/user/service.py.
use mathlib.Core.Path.{subst}
use fast_api_example.Prelude.{
  ℤ, ◌==◌, ◌&&◌, if◌then◌else◌, Bool-cases, Option-cases, inl, inr, false, Option, none, some, map,
  sym, ap, ◌∙◌, All, ◌≡◌, refl, List, [], ◌∷◌, arith,
}
use fast_api_example.Database.{Uuid, CartItemOrm}
use fast_api_example.App.{World, ok, modify}
use fast_api_example.Catalog.Models.{ShortCheckoutItem}
use fast_api_example.User.{with_quantity, set_first, set_all, update_cart_items}

-- The rows have an identifier each.
abbrev pub HasIds : List CartItemOrm → Type 0
HasIds [] = Unit
HasIds (row ∷ rows) = All (λ other. (other.id == row.id) ≡ false) rows × HasIds rows

-- The quantity of the last of the items with this identifier.
abbrev pub last_quantity : List ShortCheckoutItem → Uuid → Option ℤ
last_quantity [] id = none
last_quantity (item ∷ items) id = elim (last_quantity items id) [
  | some quantity ↦ some quantity
  | none ↦ (if id == item.id then some item.quantity else none)
]

abbrev requantified : Option ℤ → CartItemOrm → CartItemOrm
requantified none row = row
requantified (some quantity) row = record row { quantity = quantity }

-- A row of the user takes the last quantity that is given for its own identifier.
abbrev pub adjusted : Uuid → List ShortCheckoutItem → CartItemOrm → CartItemOrm
adjusted user_id items row =
    if row.user_id == user_id then requantified (last_quantity items row.id) row else row

module _ (user_id : Uuid) where
  abbrev adjusted_by : ShortCheckoutItem → CartItemOrm → CartItemOrm
  adjusted_by item row =
      if row.user_id == user_id && row.id == item.id
      then record row { quantity = item.quantity }
      else row

  map-adjusted_by :
      (item : ShortCheckoutItem) (rows : List CartItemOrm)
      → All (λ other. (other.id == item.id) ≡ false) rows
      → map (adjusted_by item) rows ≡ rows
  map-adjusted_by item [] h = refl
  map-adjusted_by item (row ∷ rows) h =
      let rest = map-adjusted_by item rows h.1 in
      let ne : (row.id == item.id) ≡ false = h.0 in ground arith

  set_first-map :
      (item : ShortCheckoutItem) (rows : List CartItemOrm)
      → HasIds rows
      → set_first user_id item rows ≡ map (adjusted_by item) rows
  unfolding set_first with_quantity
  set_first-map item [] h = refl
  set_first-map item (row ∷ rows) h =
      elim (Bool-cases (row.user_id == user_id && row.id == item.id)) [
        | inl e ↦
            (let same : row.id ≡ item.id = ground arith in
              rw e (
                ap (λ l. record row { quantity = item.quantity } ∷ l)
                  (sym (
                    map-adjusted_by item rows
                      (subst (λ k. All (λ other. (other.id == k) ≡ false) rows) same h.0)))))
        | inr e ↦ rw e (ap (λ l. row ∷ l) (set_first-map item rows h.1))
      ]

  apart_from :
      (item : ShortCheckoutItem) (id : Uuid) (rows : List CartItemOrm)
      → All (λ other. (other.id == id) ≡ false) rows
      → All (λ other. (other.id == id) ≡ false) (map (adjusted_by item) rows)
  apart_from item id [] h = tt
  apart_from item id (row ∷ rows) h = (ground (arith, h.0), apart_from item id rows h.1)

  adjusted_by-id :
      (item : ShortCheckoutItem) (row : CartItemOrm) → (adjusted_by item row).id ≡ row.id
  adjusted_by-id item row = elim (Bool-cases (row.user_id == user_id && row.id == item.id)) [
    | inl e ↦ rw e refl
    | inr e ↦ rw e refl
  ]

  map-HasIds :
      (item : ShortCheckoutItem) (rows : List CartItemOrm)
      → HasIds rows
      → HasIds (map (adjusted_by item) rows)
  map-HasIds item [] h = tt
  map-HasIds item (row ∷ rows) h = (
    subst (λ k. All (λ other. (other.id == k) ≡ false) (map (adjusted_by item) rows))
        (sym (adjusted_by-id item row)) (apart_from item row.id rows h.0),
    map-HasIds item rows h.1,
  )

  adjusted_twice :
      (item : ShortCheckoutItem) (items : List ShortCheckoutItem) (row : CartItemOrm)
      → adjusted user_id items (adjusted_by item row) ≡ adjusted user_id (item ∷ items) row
  adjusted_twice item items row = elim (Bool-cases (row.user_id == user_id)) [
    | inr other ↦ rw (other, other) refl
    | inl mine ↦ (elim (Bool-cases (row.id == item.id)) [
      | inr differs ↦ (elim (Option-cases (last_quantity items row.id)) [
        | inl none_there ↦ rw (mine, differs, none_there) (rw (mine, differs) refl)
        | inr (quantity, there) ↦ rw (mine, differs, there) (rw mine refl)
      ])
      | inl same ↦ (elim (Option-cases (last_quantity items row.id)) [
        | inl none_there ↦ rw (mine, same, none_there) (rw (mine, same) refl)
        | inr (quantity, there) ↦ rw (mine, same, there) (rw mine refl)
      ])
    ])
  ]

  map-adjusted :
      (item : ShortCheckoutItem) (items : List ShortCheckoutItem) (rows : List CartItemOrm)
      → map (adjusted user_id items) (map (adjusted_by item) rows)
        ≡ map (adjusted user_id (item ∷ items)) rows
  map-adjusted item items [] = refl
  map-adjusted item items (row ∷ rows) =
      rw (adjusted_twice item items row, map-adjusted item items rows) refl

  map-none : (rows : List CartItemOrm) → rows ≡ map (adjusted user_id []) rows
  map-none [] = refl
  map-none (row ∷ rows) = elim (Bool-cases (row.user_id == user_id)) [
    | inl e ↦ rw e (ap (λ l. row ∷ l) (map-none rows))
    | inr e ↦ rw e (ap (λ l. row ∷ l) (map-none rows))
  ]

  set_all-map :
      (items : List ShortCheckoutItem) (rows : List CartItemOrm)
      → HasIds rows
      → set_all user_id items rows ≡ map (adjusted user_id items) rows
  unfolding set_all
  set_all-map [] rows h = map-none rows
  set_all-map (item ∷ items) rows h = rw (set_first-map item rows h) (
      set_all-map items (map (adjusted_by item) rows) (map-HasIds item rows h)
      ∙ map-adjusted item items rows)

-- `update_cart_items` gives each row of the user the last quantity that is given for the row's own
-- identifier, which is not the item's, and leaves all other rows as they are. It holds where the
-- rows have an identifier each, their primary key.
pub update_cart_items-rows :
    (user_id : Uuid) (items : List ShortCheckoutItem) (w : World)
    → HasIds w.db.cart_items
    → update_cart_items user_id items w ≡ (
      ok tt,
      record w { db = record w.db { cart_items = map (adjusted user_id items) w.db.cart_items } },
    )
unfolding update_cart_items modify
update_cart_items-rows user_id items w h = rw (set_all-map user_id items w.db.cart_items h) refl
