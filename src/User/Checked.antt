-- ===== src/User/Checked.antt =====
-- What `update_cart_items` of src/services/user/service.py keeps of the table of the carts.
use fast_api_example.Prelude.{
  pos, ltb_ℤ, ◌==◌, Bool-cases, All, ◌≡◌, inl, inr, true, ◌&&◌, List, [], ◌∷◌,
}
use fast_api_example.Database.{Uuid, CartItemOrm, positive_cart_item_quantity}
use fast_api_example.Catalog.Models.{ShortCheckoutItem}
use fast_api_example.User.{is_of, with_quantity, set_first, set_all}
use fast_api_example.User.Rows.{IsNew, HasKeys}

set_first-IsNew :
    (user_id : Uuid) (item : ShortCheckoutItem) (row : CartItemOrm) (rows : List CartItemOrm)
    → IsNew row rows
    → IsNew row (set_first user_id item rows)
unfolding set_first with_quantity is_of
set_first-IsNew user_id item row [] new = tt
set_first-IsNew user_id item row (x ∷ rows) new =
    elim (Bool-cases (x.user_id == user_id && x.id == item.id)) [
      | inl e ↦ rw e new
      | inr e ↦ rw e (new.0, set_first-IsNew user_id item row rows new.1)
    ]

set_first-HasKeys :
    (user_id : Uuid) (item : ShortCheckoutItem) (rows : List CartItemOrm)
    → HasKeys rows
    → HasKeys (set_first user_id item rows)
unfolding set_first with_quantity
set_first-HasKeys user_id item [] keys = tt
set_first-HasKeys user_id item (x ∷ rows) keys =
    elim (Bool-cases (x.user_id == user_id && x.id == item.id)) [
      | inl e ↦ rw e keys
      | inr e ↦
          rw e
            (set_first-IsNew user_id item x rows keys.0, set_first-HasKeys user_id item rows keys.1)
    ]

set_first-positive :
    (user_id : Uuid) (item : ShortCheckoutItem) (rows : List CartItemOrm)
    → ltb_ℤ (pos 0) item.quantity ≡ true
    → All (λ row. positive_cart_item_quantity row ≡ true) rows
    → All (λ row. positive_cart_item_quantity row ≡ true) (set_first user_id item rows)
unfolding set_first with_quantity positive_cart_item_quantity
set_first-positive user_id item [] p h = tt
set_first-positive user_id item (x ∷ rows) p h =
    elim (Bool-cases (x.user_id == user_id && x.id == item.id)) [
      | inl e ↦ rw e (p, h.1)
      | inr e ↦ rw e (h.0, set_first-positive user_id item rows p h.1)
    ]

pub set_all-HasKeys :
    (user_id : Uuid) (items : List ShortCheckoutItem) (rows : List CartItemOrm)
    → HasKeys rows
    → HasKeys (set_all user_id items rows)
unfolding set_all
set_all-HasKeys user_id [] rows keys = keys
set_all-HasKeys user_id (item ∷ items) rows keys =
    set_all-HasKeys user_id items (set_first user_id item rows)
      (set_first-HasKeys user_id item rows keys)

pub set_all-positive :
    (user_id : Uuid) (items : List ShortCheckoutItem) (rows : List CartItemOrm)
    → All (λ row. positive_cart_item_quantity row ≡ true) rows
    → All (λ item. ltb_ℤ (pos 0) item.quantity ≡ true) items
    → All (λ row. positive_cart_item_quantity row ≡ true) (set_all user_id items rows)
unfolding set_all
set_all-positive user_id [] rows h p = h
set_all-positive user_id (item ∷ items) rows h p =
    set_all-positive user_id items (set_first user_id item rows)
      (set_first-positive user_id item rows p.0 h) p.1
