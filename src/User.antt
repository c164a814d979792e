-- ===== src/User.antt =====
-- The cart and the favorites of a user: src/services/user and src/database/repositories/user.py.
pub mod Rows
pub mod Adding
pub mod Adjusted
pub mod Checked
pub mod Quantity
pub mod SignedIn
pub mod Kept
mod Tests
use fast_api_example.Prelude.{
  ◌+ℤ◌, ◌-ℤ◌, ℤ, pos, ltb_ℤ, leb_ℤ, max_ℤ, ◌==◌, if◌then◌else◌, filter, any, contains, Bool, not,
  ◌&&◌, ◌||◌, Option, none, some, List, [], ◌∷◌, ◌++◌, map,
}
use fast_api_example.Errors.{
  attribute_error, type_error, integrity_error, other, raise_class, cart_item_not_found,
  cart_item_quantity_invalid,
}
use fast_api_example.Database.{
  Uuid, Instant, Db, CartItemOrm, UserFavoritesOrm, positive_cart_item_quantity,
}
use fast_api_example.App.{
  Env, World, Action, UserIdentity, CartKey, text_key, uuid_key, pure, raise, gets, modify,
  or_raise, raise_if, new_base, ◌>>=◌, ◌>>◌,
}
use fast_api_example.Catalog.Models.{ShortCheckoutItem}
use fast_api_example.Catalog.Checkout.{max_cart_item_quantity}

-- `class CartItem`
pub record CartItem : Type 0 where
  pub id : Uuid
  pub quantity : ℤ

-- `class UserItems`
pub record UserItems : Type 0 where
  pub cart : List CartItem
  pub favorites : List Uuid
  pub tracked : List Uuid

unfoldable pub get_user_cart_items : Uuid → Db → List CartItemOrm
get_user_cart_items user_id db = filter (λ row. row.user_id == user_id) db.cart_items

unfoldable pub get_user_favorite_items : Uuid → Db → List UserFavoritesOrm
get_user_favorite_items user_id db = filter (λ row. row.user_id == user_id) db.favorites

-- `UserService.get_user_items`: the identifier of a cart item is the one of its row.
unfoldable pub get_user_items : Uuid → Action World UserItems
unfolding get_user_cart_items get_user_favorite_items ◌>>=◌
get_user_items user_id = do
  db ← gets (λ w. w.db)
  pure (record {
    cart =
        map (λ item. record { id = item.id; quantity = item.quantity })
          (get_user_cart_items user_id db);
    favorites = map (λ item. item.catalog_item_id) (get_user_favorite_items user_id db);
    tracked = [];
  })

-- A row of the cart of a user for an item.
unfoldable pub is_of : Uuid → Uuid → CartItemOrm → Bool
is_of user_id item_id row = row.user_id == user_id && row.item_id == item_id

-- `UserService.add_item_to_cart` and the repository's: `INSERT ... ON CONFLICT DO NOTHING`, where
-- the keys of the table are `id` and the pair of `user_id` and `item_id`, and `item_id` is a
-- foreign key.
unfoldable pub add_item_to_cart : Env → Instant → Uuid → Uuid → Action World (Unit {0})
unfolding new_base is_of ◌>>=◌
add_item_to_cart env filed_at user_id item_id = do
  base ← new_base env filed_at
  db ← gets (λ w. w.db)
  let conflict = any (λ row. row.id == base.id || is_of user_id item_id row) db.cart_items
  raise_if (not conflict && not (any (λ item. item.id == item_id) db.catalog_items)) integrity_error
  modify (λ w. record w {
    db = record w.db {
      cart_items =
          if conflict
          then w.db.cart_items
          else w.db.cart_items
            ++ record { base = base; user_id = user_id; item_id = item_id; quantity = pos 1 } ∷ [];
    };
  })

-- `UserService.remove_items_from_cart` and the repository's
unfoldable pub remove_items_from_cart : Uuid → List Uuid → Action World (Unit {0})
unfolding modify
remove_items_from_cart user_id item_ids = modify (λ w. record w {
  db = record w.db {
    cart_items =
        filter (λ row. not (row.user_id == user_id && contains row.item_id item_ids))
          w.db.cart_items;
  };
})

-- `one_or_none()` of the quantities that the repository's `get_cart_item_quantity` selects.
unfoldable pub one_quantity : List CartItemOrm → Action World ℤ
unfolding pure raise
one_quantity [] = raise (raise_class cart_item_not_found)
one_quantity (row ∷ []) = pure row.quantity
one_quantity (_ ∷ _ ∷ _) = raise (other "MultipleResultsFound")

unfoldable pub get_cart_item_quantity : Uuid → Uuid → Action World ℤ
unfolding one_quantity is_of ◌>>=◌
get_cart_item_quantity item_id user_id = do
  db ← gets (λ w. w.db)
  one_quantity (filter (is_of user_id item_id) db.cart_items)

unfoldable pub with_quantity : ℤ → CartItemOrm → CartItemOrm
with_quantity quantity row = record row { quantity = quantity }

-- The `UPDATE` of the repository's `update_cart_item_quantity`, with the table's check.
unfoldable pub update_cart_item_quantity : Uuid → Uuid → ℤ → Action World (Unit {0})
unfolding is_of with_quantity positive_cart_item_quantity ◌>>=◌
update_cart_item_quantity item_id user_id new_quantity = do
  db ← gets (λ w. w.db)
  let rows =
      map (λ row. if is_of user_id item_id row then with_quantity new_quantity row else row)
        db.cart_items
  raise_if (any (λ row. is_of user_id item_id row && not (positive_cart_item_quantity row)) rows)
      integrity_error
  modify (λ w. record w { db = record w.db { cart_items = rows } })

-- `session_cart.get(item_id, 0)`: `item_id` is an identifier, not its text.
unfoldable pub session_quantity : Uuid → List (CartKey × ℤ) → ℤ
session_quantity item_id [] = pos 0
session_quantity item_id ((text_key _, quantity) ∷ cart) = session_quantity item_id cart
session_quantity item_id ((uuid_key id, quantity) ∷ cart) =
    let rest = session_quantity item_id cart in if id == item_id then quantity else rest

-- `session_cart[item_id] = quantity`
unfoldable pub put_session : Uuid → ℤ → List (CartKey × ℤ) → List (CartKey × ℤ)
put_session item_id quantity [] = (uuid_key item_id, quantity) ∷ []
put_session item_id quantity ((text_key id, q) ∷ cart) =
    (text_key id, q) ∷ put_session item_id quantity cart
put_session item_id quantity ((uuid_key id, q) ∷ cart) =
    let rest = put_session item_id quantity cart in
    if id == item_id then (uuid_key id, quantity) ∷ cart else (uuid_key id, q) ∷ rest

-- `not (0 < quantity <= max(available_items, MAX_CART_ITEM_QUANTITY))`: `max` of `None` is a
-- TypeError, where the comparison gets so far.
unfoldable pub check_quantity : ℤ → Option ℤ → Action World (Unit {0})
unfolding pure raise
check_quantity quantity available_items =
    if ltb_ℤ (pos 0) quantity
    then elim available_items [
      | none ↦ raise type_error
      | some available ↦
          (if leb_ℤ quantity (max_ℤ available max_cart_item_quantity)
            then pure tt
            else raise (raise_class cart_item_quantity_invalid))
    ]
    else raise (raise_class cart_item_quantity_invalid)

-- The quantity that `UserService.change_cart_item_quantity` starts from; `session_cart` is the
-- value of `session['cart']`.
unfoldable pub current_quantity :
    Uuid → Option (List (CartKey × ℤ)) → Option UserIdentity → Action World ℤ
unfolding get_cart_item_quantity session_quantity pure or_raise
current_quantity item_id session_cart (some user) = get_cart_item_quantity item_id user.id
current_quantity item_id none none = raise attribute_error
current_quantity item_id (some cart) none = pure (session_quantity item_id cart)

-- Where it puts the new one.
unfoldable pub store_quantity :
    Uuid → Option (List (CartKey × ℤ)) → Option UserIdentity → ℤ → Action World (Unit {0})
unfolding update_cart_item_quantity put_session raise modify
store_quantity item_id (some (entry ∷ cart)) user quantity = modify (λ w. record w {
  web = record w.web { cart = some (put_session item_id quantity (entry ∷ cart)) };
})
store_quantity item_id _ (some user) quantity = update_cart_item_quantity item_id user.id quantity
store_quantity item_id _ none quantity = raise attribute_error

-- `UserService.change_cart_item_quantity`
unfoldable pub change_cart_item_quantity :
    Uuid → Option (List (CartKey × ℤ)) → Option ℤ → Bool → Action World (Unit {0})
unfolding current_quantity check_quantity store_quantity ◌>>=◌
change_cart_item_quantity item_id session_cart available_items is_increment_action = do
  user ← gets (λ w. w.user)
  cart_quantity ← current_quantity item_id session_cart user
  let new_cart_quantity =
      if is_increment_action then cart_quantity +ℤ pos 1 else cart_quantity -ℤ pos 1
  check_quantity new_cart_quantity available_items
  store_quantity item_id session_cart user new_cart_quantity

-- The inner loop of `UserService.update_cart_items`: the first row of the user whose own
-- identifier is the item's.
unfoldable pub set_first : Uuid → ShortCheckoutItem → List CartItemOrm → List CartItemOrm
unfolding with_quantity
set_first user_id item [] = []
set_first user_id item (row ∷ rows) =
    let rest = set_first user_id item rows in
    if row.user_id == user_id && row.id == item.id
    then with_quantity item.quantity row ∷ rows
    else row ∷ rest

unfoldable pub set_all : Uuid → List ShortCheckoutItem → List CartItemOrm → List CartItemOrm
unfolding set_first
set_all user_id [] rows = rows
set_all user_id (item ∷ items) rows = set_all user_id items (set_first user_id item rows)

-- `UserService.update_cart_items`
unfoldable pub update_cart_items : Uuid → List ShortCheckoutItem → Action World (Unit {0})
unfolding set_all modify
update_cart_items user_id updated_cart_items = modify (λ w. record w {
  db = record w.db { cart_items = set_all user_id updated_cart_items w.db.cart_items };
})

-- `UserService.add_favorite_item`; `catalog_item_id` is a foreign key.
unfoldable pub add_favorite_item : Env → Instant → Uuid → Uuid → Action World (Unit {0})
unfolding new_base ◌>>=◌
add_favorite_item env filed_at catalog_item_id user_id = do
  base ← new_base env filed_at
  db ← gets (λ w. w.db)
  raise_if
      (any (λ row. row.id == base.id) db.favorites
        || not (any (λ item. item.id == catalog_item_id) db.catalog_items))
      integrity_error
  modify (λ w. record w {
    db = record w.db {
      favorites =
          w.db.favorites
          ++ record { base = base; user_id = user_id; catalog_item_id = catalog_item_id } ∷ [];
    };
  })

-- `UserService.remove_favorite_item`
unfoldable pub remove_favorite_item : Uuid → Uuid → Action World (Unit {0})
unfolding modify
remove_favorite_item catalog_item_id user_id = modify (λ w. record w {
  db = record w.db {
    favorites =
        filter (λ row. not (row.user_id == user_id && row.catalog_item_id == catalog_item_id))
          w.db.favorites;
  };
})
