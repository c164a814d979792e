-- ===== src/User/Rows.antt =====
-- The table of the carts (`CartItemORM` of src/database/models.py) under the operations of
-- src/services/user/service.py.
use fast_api_example.Prelude.{
  ℤ, pos, ◌==◌, if◌then◌else◌, Bool-cases, filter, All, All-append, All_of, Member-filter,
  All-intro, contains, ◌≡◌, inl, inr, Bool, true, false, not, ◌&&◌, List, [], ◌∷◌, ◌++◌, map, arith,
}
use fast_api_example.Database.{Uuid, CartItemOrm, BaseOrm, positive_cart_item_quantity}
use fast_api_example.App.{World}
use fast_api_example.User.{is_of, with_quantity, remove_items_from_cart}

-- No row has the same user and item.
abbrev pub IsNew : CartItemOrm → List CartItemOrm → Type 0
IsNew row rows = All (λ other. is_of row.user_id row.item_id other ≡ false) rows

abbrev pub HasKeys : List CartItemOrm → Type 0
HasKeys [] = Unit
HasKeys (row ∷ rows) = IsNew row rows × HasKeys rows

-- The constraints of the table: one row for a user and an item, and positive quantities.
abbrev pub IsCart : List CartItemOrm → Type 0
IsCart rows = All (λ row. positive_cart_item_quantity row ≡ true) rows × HasKeys rows

pub HasKeys-append :
    (rows : List CartItemOrm) (row : CartItemOrm)
    → HasKeys rows
    → All (λ other. is_of other.user_id other.item_id row ≡ false) rows
    → HasKeys (rows ++ row ∷ [])
HasKeys-append [] row keys fresh = (tt, tt)
HasKeys-append (x ∷ rows) row keys fresh = (
  All-append (λ other. is_of x.user_id x.item_id other ≡ false) rows (row ∷ []) keys.0
      (fresh.0, tt),
  HasKeys-append rows row keys.1 fresh.1,
)

pub All-filter :
    (P : CartItemOrm → Type 0) (p : CartItemOrm → Bool) (rows : List CartItemOrm)
    → All P rows
    → All P (filter p rows)
All-filter P p rows h =
    All-intro P (filter p rows) (λ row m. All_of P rows row h (Member-filter p rows row m).0)

pub HasKeys-filter :
    (p : CartItemOrm → Bool) (rows : List CartItemOrm) → HasKeys rows → HasKeys (filter p rows)
HasKeys-filter p [] keys = tt
HasKeys-filter p (row ∷ rows) keys = elim (Bool-cases (p row)) [
  | inl e ↦ rw e (
    All-filter (λ other. is_of row.user_id row.item_id other ≡ false) p rows keys.0,
    HasKeys-filter p rows keys.1,
  )
  | inr e ↦ rw e (HasKeys-filter p rows keys.1)
]

pub is_of-flip :
    (user_id item_id : Uuid) (row : CartItemOrm) (base : BaseOrm)
    → is_of user_id item_id row ≡ false
    → is_of row.user_id row.item_id
        (record { base = base; user_id = user_id; item_id = item_id; quantity = pos 1 })
      ≡ false
unfolding is_of
is_of-flip user_id item_id row base h = ground arith

pub remove_items_from_cart-IsCart :
    (user_id : Uuid) (item_ids : List Uuid) (w : World)
    → IsCart w.db.cart_items
    → IsCart (remove_items_from_cart user_id item_ids w).1.db.cart_items
unfolding remove_items_from_cart
remove_items_from_cart-IsCart user_id item_ids w (positive, keys) =
    let kept : CartItemOrm → Bool =
      λ row. not (row.user_id == user_id && contains row.item_id item_ids) in
    (
      All-filter (λ row. positive_cart_item_quantity row ≡ true) kept w.db.cart_items positive,
      HasKeys-filter kept w.db.cart_items keys,
    )

pub IsNew-map :
    (user_id item_id : Uuid) (quantity : ℤ) (row : CartItemOrm) (rows : List CartItemOrm)
    → IsNew row rows
    → IsNew row (map (λ r. if is_of user_id item_id r then with_quantity quantity r else r) rows)
unfolding is_of with_quantity
IsNew-map user_id item_id quantity row [] new = tt
IsNew-map user_id item_id quantity row (x ∷ rows) new =
    elim (Bool-cases (is_of user_id item_id x)) [
      | inl e ↦ rw e (new.0, IsNew-map user_id item_id quantity row rows new.1)
      | inr e ↦ rw e (new.0, IsNew-map user_id item_id quantity row rows new.1)
    ]

pub HasKeys-map :
    (user_id item_id : Uuid) (quantity : ℤ) (rows : List CartItemOrm)
    → HasKeys rows
    → HasKeys (map (λ r. if is_of user_id item_id r then with_quantity quantity r else r) rows)
unfolding with_quantity
HasKeys-map user_id item_id quantity [] keys = tt
HasKeys-map user_id item_id quantity (x ∷ rows) keys = elim (Bool-cases (is_of user_id item_id x)) [
  | inl e ↦ rw e (
    IsNew-map user_id item_id quantity x rows keys.0,
    HasKeys-map user_id item_id quantity rows keys.1,
  )
  | inr e ↦ rw e (
    IsNew-map user_id item_id quantity x rows keys.0,
    HasKeys-map user_id item_id quantity rows keys.1,
  )
]
