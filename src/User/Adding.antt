-- ===== src/User/Adding.antt =====
-- `add_item_to_cart` and `remove_items_from_cart` of src/services/user/service.py.
use fast_api_example.Prelude.{
  pos, ◌==◌, Bool-cases, filter, any, All-append, none_of_any, All-intro, contains, ◌+◌, ◌≡◌, refl,
  sym, ap, ◌∙◌, ◌⊎◌, inl, inr, Bool, true, false, not, ◌&&◌, ◌||◌, some, List, [], ◌∷◌, ◌++◌, arith,
}
use fast_api_example.Errors.{integrity_error}
use fast_api_example.Database.{Uuid, Instant, CartItemOrm, positive_cart_item_quantity}
use fast_api_example.App.{Result, Env, World, ok, err, draw, new_base, ◌>>=◌}
use fast_api_example.User.{is_of, add_item_to_cart, remove_items_from_cart}
use fast_api_example.User.Rows.{IsCart, HasKeys-append, is_of-flip}

-- What `add_item_to_cart` does, case by case.
abbrev pub conflicts : Env → Uuid → Uuid → World → Bool
conflicts env user_id item_id w =
    any (λ row. row.id == env.uuid4 w.drawn || is_of user_id item_id row) w.db.cart_items

abbrev pub added : Env → Instant → Uuid → Uuid → World → CartItemOrm
added env filed_at user_id item_id w = record {
  base = record { id = env.uuid4 w.drawn; created_at = filed_at; updated_at = some filed_at };
  user_id = user_id;
  item_id = item_id;
  quantity = pos 1;
}

pub add_item_to_cart-conflict :
    (env : Env) (filed_at : Instant) (user_id item_id : Uuid) (w : World)
    → conflicts env user_id item_id w ≡ true
    → add_item_to_cart env filed_at user_id item_id w ≡ (ok tt, record w { drawn = w.drawn + 1 })
unfolding add_item_to_cart new_base draw ◌>>=◌
add_item_to_cart-conflict env filed_at user_id item_id w h = rw h refl

pub add_item_to_cart-added :
    (env : Env) (filed_at : Instant) (user_id item_id : Uuid) (w : World)
    → conflicts env user_id item_id w ≡ false
    → (add_item_to_cart env filed_at user_id item_id w
        ≡ (err integrity_error, record w { drawn = w.drawn + 1 }))
      ⊎ (add_item_to_cart env filed_at user_id item_id w ≡ (
        ok tt,
        record w {
          drawn = w.drawn + 1;
          db = record w.db {
            cart_items = w.db.cart_items ++ added env filed_at user_id item_id w ∷ [];
          };
        },
      ))
unfolding add_item_to_cart new_base draw ◌>>=◌
add_item_to_cart-added env filed_at user_id item_id w h =
    elim (Bool-cases (any (λ item. item.id == item_id) w.db.catalog_items)) [
      | inl e ↦ inr (rw (h, e) refl)
      | inr e ↦ inl (rw (h, e) refl)
    ]

right_false : (a b : Bool) → a || b ≡ false → b ≡ false
right_false a b h = ground arith

pub add_item_to_cart-IsCart :
    (env : Env) (filed_at : Instant) (user_id item_id : Uuid) (w : World)
    → IsCart w.db.cart_items
    → IsCart (add_item_to_cart env filed_at user_id item_id w).1.db.cart_items
unfolding positive_cart_item_quantity
add_item_to_cart-IsCart env filed_at user_id item_id w (positive, keys) =
    elim (Bool-cases (conflicts env user_id item_id w)) [
      | inl e ↦ rw (add_item_to_cart-conflict env filed_at user_id item_id w e) (positive, keys)
      | inr e ↦ (elim (add_item_to_cart-added env filed_at user_id item_id w e) [
        | inl failed ↦ rw failed (positive, keys)
        | inr done ↦ rw done (
          All-append (λ row. positive_cart_item_quantity row ≡ true) w.db.cart_items
              (added env filed_at user_id item_id w ∷ []) positive (refl, tt),
          HasKeys-append w.db.cart_items (added env filed_at user_id item_id w) keys (
              All-intro
                (λ other.
                  is_of other.user_id other.item_id (added env filed_at user_id item_id w) ≡ false)
                w.db.cart_items
                (λ other m.
                  is_of-flip user_id item_id other (added env filed_at user_id item_id w).base (
                    right_false (other.id == env.uuid4 w.drawn) (is_of user_id item_id other) (
                      none_of_any (λ row. row.id == env.uuid4 w.drawn || is_of user_id item_id row)
                        w.db.cart_items other e m)))),
        )
      ])
    ]

any_of :
    (p : CartItemOrm → Bool) (rows : List CartItemOrm) (row : CartItemOrm)
    → p row ≡ true
    → any p (rows ++ row ∷ []) ≡ true
any_of p [] row h = rw h refl
any_of p (x ∷ rows) row h = ground (arith, any_of p rows row h)

any_other :
    (p q r : CartItemOrm → Bool) (rows : List CartItemOrm)
    → any p rows ≡ false
    → any (λ row. p row || q row) rows ≡ true
    → any (λ row. r row || q row) rows ≡ true
any_other p q r [] none_p h = absurd (ground arith)
any_other p q r (x ∷ rows) none_p h = elim (Bool-cases (q x)) [
  | inl e ↦ rw e (ground arith)
  | inr e ↦ (let rest = any_other p q r rows (ground arith) (ground arith) in ground arith)
]

is_of-added :
    (env : Env) (filed_at : Instant) (user_id item_id : Uuid) (w : World)
    → is_of user_id item_id (added env filed_at user_id item_id w) ≡ true
unfolding is_of
is_of-added env filed_at user_id item_id w = ground arith

filter-append :
    (p : CartItemOrm → Bool) (rows : List CartItemOrm) (row : CartItemOrm)
    → p row ≡ false
    → filter p (rows ++ row ∷ []) ≡ filter p rows
filter-append p [] row h = rw h refl
filter-append p (x ∷ rows) row h = rw (filter-append p rows row h) refl

ok_err : ◌≡◌ {A = Result (Unit {0})} (err integrity_error) (ok tt) → ⊥
ok_err h = ground arith

-- After an item has been put in a cart, under an identifier that no row had, putting it in again
-- changes nothing: the answer is the same, and only one more identifier is drawn.
pub add_item_to_cart-twice :
    (env : Env) (filed_at later : Instant) (user_id item_id : Uuid) (w w' : World)
    → any (λ row. row.id == env.uuid4 w.drawn) w.db.cart_items ≡ false
    → add_item_to_cart env filed_at user_id item_id w ≡ (ok tt, w')
    → add_item_to_cart env later user_id item_id w' ≡ (ok tt, record w' { drawn = w'.drawn + 1 })
add_item_to_cart-twice env filed_at later user_id item_id w w' fresh h =
    add_item_to_cart-conflict env later user_id item_id w'
      (elim (Bool-cases (conflicts env user_id item_id w)) [
        | inl e ↦
            (let same =
                ap (λ r. r.1)
                  (sym h ∙ add_item_to_cart-conflict env filed_at user_id item_id w e) in
              rw same (
                any_other (λ row. row.id == env.uuid4 w.drawn) (is_of user_id item_id)
                  (λ row. row.id == env.uuid4 (w.drawn + 1)) w.db.cart_items fresh e))
        | inr e ↦ (elim (add_item_to_cart-added env filed_at user_id item_id w e) [
          | inl failed ↦ absurd (ok_err (sym (ap (λ r. r.0) failed) ∙ ap (λ r. r.0) h))
          | inr done ↦
              (let same = ap (λ r. r.1) (sym h ∙ done) in
                rw same (
                  any_of (λ row. row.id == env.uuid4 (w.drawn + 1) || is_of user_id item_id row)
                    w.db.cart_items (added env filed_at user_id item_id w)
                    (rw (is_of-added env filed_at user_id item_id w) (ground arith))))
        ])
      ])

-- Removing an item that was put in the cart leaves the cart as it is after removing that item
-- alone.
pub add-remove :
    (env : Env) (filed_at : Instant) (user_id item_id : Uuid) (w w' : World)
    → add_item_to_cart env filed_at user_id item_id w ≡ (ok tt, w')
    → (remove_items_from_cart user_id (item_id ∷ []) w').1.db
      ≡ (remove_items_from_cart user_id (item_id ∷ []) w).1.db
unfolding remove_items_from_cart
add-remove env filed_at user_id item_id w w' h =
    elim (Bool-cases (conflicts env user_id item_id w)) [
      | inl e ↦
          (let same =
              ap (λ r. r.1) (sym h ∙ add_item_to_cart-conflict env filed_at user_id item_id w e) in
            rw same refl)
      | inr e ↦ (elim (add_item_to_cart-added env filed_at user_id item_id w e) [
        | inl failed ↦ absurd (ok_err (sym (ap (λ r. r.0) failed) ∙ ap (λ r. r.0) h))
        | inr done ↦
            (let same = ap (λ r. r.1) (sym h ∙ done) in
              rw
                (
                  same,
                  filter-append
                      (λ row. not (row.user_id == user_id && contains row.item_id (item_id ∷ [])))
                      w.db.cart_items (added env filed_at user_id item_id w) (ground arith),
                )
                refl)
      ])
    ]
