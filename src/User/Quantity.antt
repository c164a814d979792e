-- ===== src/User/Quantity.antt =====
-- `change_cart_item_quantity` of src/services/user/service.py.
use fast_api_example.Prelude.{
  ◌+ℤ◌, ◌-ℤ◌, ℤ, pos, ◌≤ℤ◌, ltb_ℤ, leb_ℤ, max_ℤ, if◌then◌else◌, Bool-cases, filter, any, All, ◌≡◌,
  refl, ◌⊎◌, inl, inr, Bool, true, false, not, ◌&&◌, Option, none, some, List, [], ◌∷◌, map, arith,
}
use fast_api_example.Errors.{
  Exception, attribute_error, type_error, other, raise_class, cart_item_not_found,
  cart_item_quantity_invalid, integrity_error,
}
use fast_api_example.Catalog.Checkout.{max_cart_item_quantity}
use fast_api_example.Database.{Uuid, CartItemOrm, positive_cart_item_quantity}
use fast_api_example.App.{CartKey, UserIdentity, Result, World, ok, err, ◌>>=◌}
use fast_api_example.User.{
  current_quantity, get_cart_item_quantity, session_quantity, check_quantity, store_quantity,
  change_cart_item_quantity, is_of, with_quantity, update_cart_item_quantity,
}
use fast_api_example.User.Rows.{IsCart, HasKeys-map}

-- The rows after the `UPDATE` of a quantity.
abbrev pub updated : Uuid → Uuid → ℤ → List CartItemOrm → List CartItemOrm
updated user_id item_id quantity =
    map (λ row. if is_of user_id item_id row then with_quantity quantity row else row)

pub update_cart_item_quantity-cases :
    (item_id user_id : Uuid) (quantity : ℤ) (w : World)
    → let rows = updated user_id item_id quantity w.db.cart_items in
      (update_cart_item_quantity item_id user_id quantity w ≡ (err integrity_error, w))
      ⊎ ((update_cart_item_quantity item_id user_id quantity w
            ≡ (ok tt, record w { db = record w.db { cart_items = rows } }))
          × (any (λ row. is_of user_id item_id row && not (positive_cart_item_quantity row)) rows
              ≡ false))
unfolding update_cart_item_quantity ◌>>=◌
update_cart_item_quantity-cases item_id user_id quantity w =
    elim (Bool-cases (
      any (λ row. is_of user_id item_id row && not (positive_cart_item_quantity row))
        (updated user_id item_id quantity w.db.cart_items))) [
          | inl e ↦ inl (rw e refl)
          | inr e ↦ inr (rw e refl, e)
        ]

positive_kept :
    (user_id item_id : Uuid) (quantity : ℤ) (rows : List CartItemOrm)
    → any
        (λ row. is_of user_id item_id row && not (positive_cart_item_quantity row))
        (updated user_id item_id quantity rows)
      ≡ false
    → All (λ row. positive_cart_item_quantity row ≡ true) rows
    → All (λ row. positive_cart_item_quantity row ≡ true) (updated user_id item_id quantity rows)
unfolding with_quantity is_of
positive_kept user_id item_id quantity [] fine h = tt
positive_kept user_id item_id quantity (x ∷ rows) fine h =
    elim (Bool-cases (is_of user_id item_id x)) [
      | inl e ↦ (ground arith, positive_kept user_id item_id quantity rows (ground arith) h.1)
      | inr e ↦ (ground arith, positive_kept user_id item_id quantity rows (ground arith) h.1)
    ]

pub update_cart_item_quantity-IsCart :
    (item_id user_id : Uuid) (quantity : ℤ) (w : World)
    → IsCart w.db.cart_items
    → IsCart (update_cart_item_quantity item_id user_id quantity w).1.db.cart_items
update_cart_item_quantity-IsCart item_id user_id quantity w (positive, keys) =
    elim (update_cart_item_quantity-cases item_id user_id quantity w) [
      | inl failed ↦ rw failed (positive, keys)
      | inr (done, fine) ↦ rw done (
        positive_kept user_id item_id quantity w.db.cart_items fine positive,
        HasKeys-map user_id item_id quantity w.db.cart_items keys,
      )
    ]

pub data RowsCases (rows : List CartItemOrm) : Type 0 where
  row_none : rows ≡ [] → RowsCases rows
  row_one : (row : CartItemOrm) → rows ≡ row ∷ [] → RowsCases rows
  row_many : (a b : CartItemOrm) (rest : List CartItemOrm) → rows ≡ a ∷ b ∷ rest → RowsCases rows

pub rows_cases : (rows : List CartItemOrm) → RowsCases rows
rows_cases [] = row_none refl
rows_cases (row ∷ []) = row_one row refl
rows_cases (a ∷ b ∷ rest) = row_many a b rest refl

current_quantity-state :
    (item_id : Uuid) (cart : Option (List (CartKey × ℤ))) (user : Option UserIdentity) (w : World)
    → (r : Result ℤ) × (current_quantity item_id cart user w ≡ (r, w))
unfolding current_quantity get_cart_item_quantity ◌>>=◌
current_quantity-state item_id cart (some user) w =
    elim (rows_cases (filter (is_of user.id item_id) w.db.cart_items)) [
      | row_none e ↦ (err (raise_class cart_item_not_found), rw e refl)
      | row_one row e ↦ (ok row.quantity, rw e refl)
      | row_many a b rest e ↦ (err (other "MultipleResultsFound"), rw e refl)
    ]
current_quantity-state item_id none none w = (err attribute_error, refl)
current_quantity-state item_id (some cart) none w = (ok (session_quantity item_id cart), refl)

check_quantity-cases :
    (quantity : ℤ) (available : Option ℤ) (w : World)
    → ((e : Exception) × (check_quantity quantity available w ≡ (err e, w)))
      ⊎ ((limit : ℤ) × (available ≡ some limit)
          × (check_quantity quantity available w ≡ (ok tt, w))
          × (pos 1 ≤ℤ quantity)
          × (quantity ≤ℤ max_ℤ limit max_cart_item_quantity))
unfolding check_quantity
check_quantity-cases quantity none w = elim (Bool-cases (ltb_ℤ (pos 0) quantity)) [
  | inl e ↦ inl (type_error, rw e refl)
  | inr e ↦ inl (raise_class cart_item_quantity_invalid, rw e refl)
]
check_quantity-cases quantity (some limit) w = elim (Bool-cases (ltb_ℤ (pos 0) quantity)) [
  | inl e ↦ (elim (Bool-cases (leb_ℤ quantity (max_ℤ limit max_cart_item_quantity))) [
    | inl f ↦ inr (limit, refl, rw (e, f) refl, ground arith, ground arith)
    | inr f ↦ inl (raise_class cart_item_quantity_invalid, rw (e, f) refl)
  ])
  | inr e ↦ inl (raise_class cart_item_quantity_invalid, rw e refl)
]

store_quantity-IsCart :
    (item_id : Uuid) (cart : Option (List (CartKey × ℤ))) (user : Option UserIdentity)
    (quantity : ℤ) (w : World)
    → IsCart w.db.cart_items
    → IsCart (store_quantity item_id cart user quantity w).1.db.cart_items
unfolding store_quantity
store_quantity-IsCart item_id (some (entry ∷ cart)) user quantity w h = h
store_quantity-IsCart item_id (some []) (some user) quantity w h =
    update_cart_item_quantity-IsCart item_id user.id quantity w h
store_quantity-IsCart item_id none (some user) quantity w h =
    update_cart_item_quantity-IsCart item_id user.id quantity w h
store_quantity-IsCart item_id (some []) none quantity w h = h
store_quantity-IsCart item_id none none quantity w h = h

-- The quantity after a step.
abbrev pub stepped : Bool → ℤ → ℤ
stepped is_increment quantity = if is_increment then quantity +ℤ pos 1 else quantity -ℤ pos 1

-- A call that changes something: the quantity it starts from, and the limit.
pub record Changed (item_id : Uuid) (cart : Option (List (CartKey × ℤ))) (available : Option ℤ)
    (is_increment : Bool) (w : World) : Type 0 where
  pub start : ℤ
  pub limit : ℤ
  pub started : current_quantity item_id cart w.user w ≡ (ok start, w)
  pub limited : available ≡ some limit
  pub at_least : pos 1 ≤ℤ stepped is_increment start
  pub at_most : stepped is_increment start ≤ℤ max_ℤ limit max_cart_item_quantity
  pub stored :
      change_cart_item_quantity item_id cart available is_increment w
      ≡ store_quantity item_id cart w.user (stepped is_increment start) w

module _ (item_id : Uuid) (cart : Option (List (CartKey × ℤ))) (available : Option ℤ)
    (is_increment : Bool) (w : World) where
  change_from :
      (r : Result ℤ)
      → current_quantity item_id cart w.user w ≡ (r, w)
      → ((e : Exception) × (change_cart_item_quantity item_id cart available is_increment w
            ≡ (err e, w)))
        ⊎ Changed item_id cart available is_increment w
  unfolding change_cart_item_quantity ◌>>=◌
  change_from (err e) h = inl (e, rw h refl)
  change_from (ok start) h = elim (check_quantity-cases (stepped is_increment start) available w) [
    | inl (e, failed) ↦ inl (e, rw (h, failed) refl)
    | inr (limit, limited, passed, low, high) ↦ inr (record {
      start = start;
      limit = limit;
      started = h;
      limited = limited;
      at_least = low;
      at_most = high;
      stored = rw (h, passed) refl;
    })
  ]

  pub change_cases :
      ((e : Exception) × (change_cart_item_quantity item_id cart available is_increment w
          ≡ (err e, w)))
      ⊎ Changed item_id cart available is_increment w
  change_cases = let (r, h) = current_quantity-state item_id cart w.user w in change_from r h

  -- However a call of `change_cart_item_quantity` ends, the table of the carts keeps its
  -- constraints.
  pub change_cart_item_quantity-IsCart :
      IsCart w.db.cart_items
      → IsCart (change_cart_item_quantity item_id cart available is_increment w).1.db.cart_items
  change_cart_item_quantity-IsCart h = elim change_cases [
    | inl (e, failed) ↦ rw failed h
    | inr changed ↦
        rw changed.stored
          (store_quantity-IsCart item_id cart w.user (stepped is_increment changed.start) w h)
  ]
