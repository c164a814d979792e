-- ===== src/User/SignedIn.antt =====
-- `change_cart_item_quantity` of src/services/user/service.py for a user who is signed in.
use fast_api_example.Prelude.{
  ℤ, pos, ◌≤ℤ◌, max_ℤ, filter, ◌≡◌, sym, ap, ◌∙◌, inl, inr, Bool, Option, some, [], ◌∷◌, arith,
}
use fast_api_example.Catalog.Checkout.{max_cart_item_quantity}
use fast_api_example.Database.{Uuid, CartItemOrm}
use fast_api_example.App.{UserIdentity, World, ok, ◌>>=◌}
use fast_api_example.User.{
  current_quantity, get_cart_item_quantity, store_quantity, change_cart_item_quantity, is_of,
  update_cart_item_quantity,
}
use fast_api_example.User.Quantity.{
  stepped, updated, row_none, row_one, row_many, rows_cases, change_cases,
  update_cart_item_quantity-cases,
}

-- `quantity` is the one of the only row of the user for the item.
abbrev pub IsQuantityOf : World → Uuid → Uuid → ℤ → Type 0
IsQuantityOf w user_id item_id quantity =
    (row : CartItemOrm) × (filter (is_of user_id item_id) w.db.cart_items ≡ row ∷ [])
    × (row.quantity ≡ quantity)

get_cart_item_quantity-ok :
    (item_id user_id : Uuid) (quantity : ℤ) (w : World)
    → get_cart_item_quantity item_id user_id w ≡ (ok quantity, w)
    → IsQuantityOf w user_id item_id quantity
unfolding get_cart_item_quantity ◌>>=◌
get_cart_item_quantity-ok item_id user_id quantity w h =
    elim (rows_cases (filter (is_of user_id item_id) w.db.cart_items)) [
      | row_none e ↦ absurd (ground arith)
      | row_one row e ↦ (row, e, ground arith)
      | row_many a b rest e ↦ absurd (ground arith)
    ]

update_ok :
    (item_id user_id : Uuid) (quantity : ℤ) (w w' : World)
    → update_cart_item_quantity item_id user_id quantity w ≡ (ok tt, w')
    → w' ≡ record w {
      db = record w.db { cart_items = updated user_id item_id quantity w.db.cart_items };
    }
update_ok item_id user_id quantity w w' h =
    elim (update_cart_item_quantity-cases item_id user_id quantity w) [
      | inl failed ↦ absurd (ground arith)
      | inr (done, fine) ↦ ap (λ r. r.1) (sym h ∙ done)
    ]

-- A step of a signed-in user, whose session has an empty cart: where it succeeds, the user had one
-- row for the item, its quantity goes up or down by one, to at least one and at most the larger of
-- what is available and of `MAX_CART_ITEM_QUANTITY`; nothing else is changed.
pub change_cart_item_quantity-signed_in :
    (item_id : Uuid) (user : UserIdentity) (available : Option ℤ) (is_increment : Bool)
    (w w' : World)
    → w.user ≡ some user
    → change_cart_item_quantity item_id (some []) available is_increment w ≡ (ok tt, w')
    → (quantity limit : ℤ) × IsQuantityOf w user.id item_id quantity
      × (available ≡ some limit)
      × (pos 1 ≤ℤ stepped is_increment quantity)
      × (stepped is_increment quantity ≤ℤ max_ℤ limit max_cart_item_quantity)
      × (w' ≡ record w {
        db = record w.db {
          cart_items = updated user.id item_id (stepped is_increment quantity) w.db.cart_items;
        };
      })
unfolding current_quantity store_quantity
change_cart_item_quantity-signed_in item_id user available is_increment w w' signed h =
    elim (change_cases item_id (some []) available is_increment w) [
      | inl (e, failed) ↦ absurd (ground arith)
      | inr changed ↦
          (let begun =
              sym (ap (λ u. current_quantity item_id (some []) u w) signed) ∙ changed.started in
            let ended = sym (
              sym h
              ∙ changed.stored
              ∙ ap (λ u. store_quantity item_id (some []) u (stepped is_increment changed.start) w)
                  signed) in
            (
              changed.start,
              changed.limit,
              get_cart_item_quantity-ok item_id user.id changed.start w begun,
              changed.limited,
              changed.at_least,
              changed.at_most,
              update_ok item_id user.id (stepped is_increment changed.start) w w' ended,
            ))
    ]
