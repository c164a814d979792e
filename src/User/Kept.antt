-- ===== src/User/Kept.antt =====
-- The constraints of the cart table (`CartItemORM` of src/database/models.py) under the operations
-- of src/services/user/service.py.
use fast_api_example.Database.{Uuid, Instant}
use fast_api_example.Prelude.{ℤ, pos, ltb_ℤ, All, ◌≡◌, true, Bool, Option, List}
use fast_api_example.App.{Env, World, CartKey, modify}
use fast_api_example.Catalog.Models.{ShortCheckoutItem}
use fast_api_example.User.Checked.{set_all-HasKeys, set_all-positive}
use fast_api_example.User.{
  add_item_to_cart, remove_items_from_cart, change_cart_item_quantity, update_cart_items,
}
use fast_api_example.User.Rows.{IsCart, HasKeys, remove_items_from_cart-IsCart}
use fast_api_example.User.Adding.{add_item_to_cart-IsCart}
use fast_api_example.User.Quantity.{change_cart_item_quantity-IsCart}

-- A table of carts with one row for a user and an item and with positive quantities stays so under
-- putting an item in, removing items, and changing a quantity, whether these succeed or not, and
-- under `update_cart_items` with positive quantities; with any others this keeps one row for a user
-- and an item.
pub kept-IsCart :
    (w : World)
    → IsCart w.db.cart_items
    → ((env : Env) (filed_at : Instant) (user_id item_id : Uuid)
        → IsCart (add_item_to_cart env filed_at user_id item_id w).1.db.cart_items)
      × ((user_id : Uuid) (item_ids : List Uuid)
          → IsCart (remove_items_from_cart user_id item_ids w).1.db.cart_items)
      × ((item_id : Uuid) (cart : Option (List (CartKey × ℤ))) (available : Option ℤ)
            (is_increment : Bool)
          → IsCart
              (change_cart_item_quantity item_id cart available is_increment w).1.db.cart_items)
      × ((user_id : Uuid) (items : List ShortCheckoutItem)
          → HasKeys (update_cart_items user_id items w).1.db.cart_items
            × (All (λ item. ltb_ℤ (pos 0) item.quantity ≡ true) items
                → IsCart (update_cart_items user_id items w).1.db.cart_items))
unfolding update_cart_items modify
kept-IsCart w h = (
  λ env filed_at user_id item_id. add_item_to_cart-IsCart env filed_at user_id item_id w h,
  λ user_id item_ids. remove_items_from_cart-IsCart user_id item_ids w h,
  λ item_id cart available is_increment.
      change_cart_item_quantity-IsCart item_id cart available is_increment w h,
  λ user_id items. (
    set_all-HasKeys user_id items w.db.cart_items h.1,
    λ positive. (
      set_all-positive user_id items w.db.cart_items h.0 positive,
      set_all-HasKeys user_id items w.db.cart_items h.1,
    ),
  ),
)
