-- ===== src/User/Tests.antt =====
-- Tests of the carts, and instances of the theorems about them.
use fast_api_example.Prelude.{
  ◌+ℤ◌, ℤ, pos, ltb_ℤ, All, map, ◌≤ℤ◌, max_ℤ, ◌+◌, ◌≡◌, refl, Bool, true, false, Option, none, some,
  List, [], ◌∷◌,
}
use fast_api_example.Errors.{type_error}
use fast_api_example.Database.{
  Uuid, Instant, CartItemOrm, CatalogItemOrm, empty_db, positive_cart_item_quantity,
}
use fast_api_example.App.{modify, Env, World, UserIdentity, CartKey, ok, err, ◌>>=◌}
use fast_api_example.Catalog.Models.{ShortCheckoutItem}
use fast_api_example.User.{
  set_all, set_first, with_quantity, set_all, set_first, with_quantity, add_item_to_cart,
  remove_items_from_cart, change_cart_item_quantity, update_cart_items,
}
use fast_api_example.User.Rows.{IsCart, HasKeys}
use fast_api_example.User.Quantity.{stepped, updated}
use fast_api_example.User.SignedIn.{IsQuantityOf, change_cart_item_quantity-signed_in}
use fast_api_example.User.Kept.{kept-IsCart}
use fast_api_example.User.Adjusted.{adjusted, update_cart_items-rows}
use fast_api_example.Catalog.Checkout.{max_cart_item_quantity}

abbrev buyer : UserIdentity
buyer = record {
  id = 9;
  schema_id = "customer";
  state = "active";
  email = "a@b.c";
  first_name = "A";
  last_name = "B";
  phone = "+7";
  verified = true;
  metadata_public = none;
}

abbrev env : Env
env = record {
  uuid4 = λ n. n + 1000;
  post_init = λ request. record {
    is_success = false;
    is_filled = false;
    error_code = none;
    details = none;
    body = err type_error;
  };
  assign = λ given. err type_error;
  payment_part = λ part. ok (record { sum = part.sum; deadline = "" });
}

abbrev cart_row : Uuid → Uuid → ℤ → CartItemOrm
cart_row id item_id quantity = record {
  base = record { id = id; created_at = 0; updated_at = none };
  user_id = 9;
  item_id = item_id;
  quantity = quantity;
}

abbrev on_sale : Uuid → CatalogItemOrm
on_sale id = record {
  base = record { id = id; created_at = 0; updated_at = none };
  publication_id = 50;
  product_id = 60;
  credit_plan_id = none;
  price = pos 100;
  is_active = true;
  index = none;
  quantity = some (pos 1);
  ordered_quantity = pos 0;
}

abbrev shop : World
shop = record {
  db = record empty_db {
    catalog_items = on_sale 1 ∷ on_sale 2 ∷ [];
    cart_items = cart_row 500 1 (pos 4) ∷ [];
  };
  web = record { cart = some []; checkout_data = none };
  user = some buyer;
  drawn = 0;
  asked = [];
}

abbrev with_two : World
with_two = record shop {
  drawn = 1;
  db = record shop.db {
    cart_items =
        cart_row 500 1 (pos 4)
        ∷ record {
          base = record { id = 1000; created_at = 3; updated_at = some 3 };
          user_id = 9;
          item_id = 2;
          quantity = pos 1;
        }
        ∷ [];
  };
}

add_two : add_item_to_cart env 3 9 2 shop ≡ (ok tt, with_two)
unfolding add_item_to_cart ◌>>=◌
add_two = refl

shop-IsCart : IsCart shop.db.cart_items
unfolding positive_cart_item_quantity
shop-IsCart = ((refl, tt), (tt, tt))

kept-IsCart_example :
    ((env : Env) (filed_at : Instant) (user_id item_id : Uuid)
      → IsCart (add_item_to_cart env filed_at user_id item_id shop).1.db.cart_items)
    × ((user_id : Uuid) (item_ids : List Uuid)
        → IsCart (remove_items_from_cart user_id item_ids shop).1.db.cart_items)
    × ((item_id : Uuid) (cart : Option (List (CartKey × ℤ))) (available : Option ℤ)
          (is_increment : Bool)
        → IsCart
            (change_cart_item_quantity item_id cart available is_increment shop).1.db.cart_items)
    × ((user_id : Uuid) (items : List ShortCheckoutItem)
        → HasKeys (update_cart_items user_id items shop).1.db.cart_items
          × (All (λ item. ltb_ℤ (pos 0) item.quantity ≡ true) items
              → IsCart (update_cart_items user_id items shop).1.db.cart_items))
kept-IsCart_example = kept-IsCart shop shop-IsCart

abbrev five : World
five = record shop { db = record shop.db { cart_items = cart_row 500 1 (pos 5) ∷ [] } }

-- One piece is on sale, and the cart goes from four pieces to five.
to_five : change_cart_item_quantity 1 (some []) (some (pos 1)) true shop ≡ (ok tt, five)
unfolding change_cart_item_quantity ◌>>=◌ ◌+ℤ◌
to_five = refl

change_cart_item_quantity-signed_in_example :
    (quantity limit : ℤ) × IsQuantityOf shop 9 1 quantity
    × (some (pos 1) ≡ some limit)
    × (pos 1 ≤ℤ stepped true quantity)
    × (stepped true quantity ≤ℤ max_ℤ limit max_cart_item_quantity)
    × (five ≡ record shop {
      db = record shop.db { cart_items = updated 9 1 (stepped true quantity) shop.db.cart_items };
    })
change_cart_item_quantity-signed_in_example =
    change_cart_item_quantity-signed_in 1 buyer (some (pos 1)) true shop five refl to_five

abbrev cut : List ShortCheckoutItem
cut = record { id = 1; quantity = pos 1 } ∷ []

-- The cart holds four pieces of the item, and still does.
not_cut : update_cart_items 9 cut shop ≡ (ok tt, shop)
unfolding update_cart_items set_all set_first with_quantity modify
not_cut = refl

-- The cut of the row by its own identifier, and a cut of nothing.
abbrev cuts : List ShortCheckoutItem
cuts =
    record { id = 500; quantity = pos 3 }
    ∷ record { id = 1; quantity = pos 1 }
    ∷ record { id = 500; quantity = pos 2 }
    ∷ []

update_cart_items-rows_example : update_cart_items 9 cuts shop ≡ (
  ok tt,
  record shop { db = record shop.db { cart_items = map (adjusted 9 cuts) shop.db.cart_items } },
)
update_cart_items-rows_example = update_cart_items-rows 9 cuts shop (tt, tt)

to_two : map (adjusted 9 cuts) shop.db.cart_items ≡ cart_row 500 1 (pos 2) ∷ []
to_two = refl
