-- ===== src/Transport/User/Limits.antt =====
-- What the handlers of src/transport/handlers/client/user/entrypoints.py cannot do.
use fast_api_example.Prelude.{
  ℤ, pos, ◌==◌, Bool-cases, Option-cases, All, if◌then◌else◌, Option, ◌≢◌, ◌≡◌, refl, inl, inr,
  Bool, none, some, List, [], ◌∷◌, arith,
}
use fast_api_example.Errors.{
  Exception, key_error, raise_class, catalog_item_not_found, validation_failed,
}
use fast_api_example.Database.{Db, Uuid, Instant}
use fast_api_example.App.{Env, World, CartKey, text_key, uuid_key, ok, err, get_by_id, ◌>>=◌}
use fast_api_example.Transport.User.{
  pop, pop_all, put_text, remove_from_session, remove_items_from_cart_handler,
  add_item_to_cart_handler, get_catalog_item_quantity, change_cart_item_quantity_handler,
}

-- A key that a session read from its cookie has: a text.
abbrev pub IsText : CartKey × ℤ → Type 0
IsText (text_key id, quantity) = Unit
IsText (uuid_key id, quantity) = ⊥

get_catalog_item_quantity-err :
    (item_id : Uuid) (db : Db) → (e : Exception) × (get_catalog_item_quantity item_id db ≡ err e)
unfolding get_catalog_item_quantity
get_catalog_item_quantity-err item_id db =
    elim (Option-cases (get_by_id (λ item. item.id) item_id db.catalog_items)) [
      | inl e ↦ (raise_class catalog_item_not_found, ground arith)
      | inr (item, e) ↦ (validation_failed "price, title, credit_parts", ground arith)
    ]

-- The handler that changes the quantity of a cart item raises for every item, every action and
-- every user, and changes nothing.
pub change_cart_item_quantity_handler-refused :
    (item_id : Uuid) (is_increment : Bool) (w : World)
    → (e : Exception) × (change_cart_item_quantity_handler item_id is_increment w ≡ (err e, w))
unfolding change_cart_item_quantity_handler ◌>>=◌
change_cart_item_quantity_handler-refused item_id is_increment w =
    let (e, h) = get_catalog_item_quantity-err item_id w.db in (e, rw h refl)

pop-IsText :
    (item_id : Uuid) (cart : List (CartKey × ℤ)) → All IsText cart → pop item_id cart ≡ none
unfolding pop
pop-IsText item_id [] h = refl
pop-IsText item_id ((text_key id, q) ∷ cart) h = rw (pop-IsText item_id cart h.1) refl
pop-IsText item_id ((uuid_key id, q) ∷ cart) h = absurd h.0

pop_all-IsText :
    (item_id : Uuid) (item_ids : List Uuid) (cart : List (CartKey × ℤ))
    → All IsText cart
    → pop_all (item_id ∷ item_ids) cart ≡ (err key_error, cart)
unfolding pop_all
pop_all-IsText item_id item_ids cart h = ground (arith, pop-IsText item_id cart h)

put_text-IsText :
    (item_id : Uuid) (quantity : ℤ) (cart : List (CartKey × ℤ))
    → All IsText cart
    → All IsText (put_text item_id quantity cart)
unfolding put_text
put_text-IsText item_id quantity [] h = (tt, tt)
put_text-IsText item_id quantity ((text_key id, q) ∷ cart) h = elim (Bool-cases (id == item_id)) [
  | inl e ↦ rw e (tt, h.1)
  | inr e ↦ rw e (tt, put_text-IsText item_id quantity cart h.1)
]
put_text-IsText item_id quantity ((uuid_key id, q) ∷ cart) h = absurd h.0

-- The quantity under a key that is a text, as the browser's next request finds it.
abbrev pub text_quantity : Uuid → List (CartKey × ℤ) → Option ℤ
text_quantity item_id [] = none
text_quantity item_id ((text_key id, quantity) ∷ cart) =
    let rest = text_quantity item_id cart in if id == item_id then some quantity else rest
text_quantity item_id ((uuid_key id, quantity) ∷ cart) = text_quantity item_id cart

put_text-quantity :
    (item_id : Uuid) (quantity : ℤ) (cart : List (CartKey × ℤ))
    → text_quantity item_id (put_text item_id quantity cart) ≡ some quantity
unfolding put_text
put_text-quantity item_id quantity [] = ground arith
put_text-quantity item_id quantity ((text_key id, q) ∷ cart) =
    ground (arith, put_text-quantity item_id quantity cart)
put_text-quantity item_id quantity ((uuid_key id, q) ∷ cart) =
    put_text-quantity item_id quantity cart

put_text-others :
    (item_id : Uuid) (quantity : ℤ) (cart : List (CartKey × ℤ)) (other : Uuid)
    → other ≢ item_id
    → text_quantity other (put_text item_id quantity cart) ≡ text_quantity other cart
unfolding put_text
put_text-others item_id quantity [] other ne = ground arith
put_text-others item_id quantity ((text_key id, q) ∷ cart) other ne =
    ground (arith, put_text-others item_id quantity cart other ne)
put_text-others item_id quantity ((uuid_key id, q) ∷ cart) other ne =
    put_text-others item_id quantity cart other ne

-- A visitor whose session cart has text keys only can put an item in: its quantity is then one,
-- those of the other items stay, and the keys are texts again. But no item can be taken out: the
-- handler answers a KeyError and leaves the cart as it is.
pub session_cart-IsText :
    (env : Env) (filed_at : Instant) (item_id : Uuid) (item_ids : List Uuid)
    (cart : List (CartKey × ℤ)) (w : World)
    → w.user ≡ none
    → w.web.cart ≡ some cart
    → All IsText cart
    → ((more : List (CartKey × ℤ)) × All IsText more
        × (text_quantity item_id more ≡ some (pos 1))
        × ((other : Uuid) → other ≢ item_id → text_quantity other more ≡ text_quantity other cart)
        × (add_item_to_cart_handler env filed_at item_id w
            ≡ (ok tt, record w { web = record w.web { cart = some more } })))
      × (remove_items_from_cart_handler (item_id ∷ item_ids) w ≡ (err key_error, w))
unfolding add_item_to_cart_handler remove_items_from_cart_handler remove_from_session ◌>>=◌
session_cart-IsText env filed_at item_id item_ids cart w visitor e h = (
  (
    put_text item_id (pos 1) cart,
    put_text-IsText item_id (pos 1) cart h,
    put_text-quantity item_id (pos 1) cart,
    put_text-others item_id (pos 1) cart,
    rw (visitor, e) refl,
  ),
  rw (visitor, e, pop_all-IsText item_id item_ids cart h) refl,
)
