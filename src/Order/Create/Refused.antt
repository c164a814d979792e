-- ===== src/Order/Create/Refused.antt =====
-- `create_order` (src/services/order/service.py) assigns a dictionary to `OrderORM.invoices`, a
-- relationship that holds a list. SQLAlchemy refuses such an assignment with a TypeError.
use fast_api_example.Prelude.{ℕ, ◌+◌, ◌≡◌, refl, ap, ◌∙◌, Option, none, some, List, [], ◌∷◌}
use fast_api_example.Errors.{Exception, type_error}
use fast_api_example.Database.{Uuid, Instant}
use fast_api_example.App.{
  draw, new_base, Env, World, Action, Result, UserIdentity, NewInvoice, a_dict, ok, err, gets, pure,
  lift, modify, or_raise, continue, ◌>>=◌,
}
use fast_api_example.Catalog.Models.{AvailableCheckoutItem}
use fast_api_example.Order.Models.{Delivery}
use fast_api_example.Order.Invoices.{OrderInvoices, make_order_invoices_objects}
use fast_api_example.Order.Create.{create_order}
use fast_api_example.Order.Filing.{new_delivery, new_order_item, new_order_items}

-- The action leaves all of the state but the count of the identifiers drawn.
pub record OnlyDraws {A : Type 0} (m : Action World A) : Type 0 where
  pub at : (w : World) → (n : ℕ) × ((m w).1 ≡ record w { drawn = n })

-- The action raises, and leaves all of the state but that count.
pub record Refuses {A : Type 0} (m : Action World A) : Type 0 where
  pub at : (w : World) → (e : Exception) × (n : ℕ) × (m w ≡ (err e, record w { drawn = n }))

module _ {A : Type 0} where
  OnlyDraws-pure : (a : A) → OnlyDraws (pure a)
  unfolding pure
  OnlyDraws-pure a = record { at = λ w. (w.drawn, refl) }

  OnlyDraws-gets : (f : World → A) → OnlyDraws (gets f)
  unfolding gets
  OnlyDraws-gets f = record { at = λ w. (w.drawn, refl) }

  OnlyDraws-lift : (r : Result A) → OnlyDraws (lift r)
  unfolding lift
  OnlyDraws-lift r = record { at = λ w. (w.drawn, refl) }

  OnlyDraws-or_raise : (o : Option A) (e : Exception) → OnlyDraws (or_raise o e)
  unfolding or_raise
  OnlyDraws-or_raise none e = record { at = λ w. (w.drawn, refl) }
  OnlyDraws-or_raise (some a) e = record { at = λ w. (w.drawn, refl) }

  Refuses-or_raise :
      {B : Type 0} (e : Exception) (f : A → Action World B) → Refuses (or_raise none e >>= f)
  unfolding or_raise ◌>>=◌
  Refuses-or_raise e f = record { at = λ w. (e, w.drawn, refl) }

OnlyDraws-modify : (n : ℕ) → OnlyDraws (modify (λ (w : World). record w { drawn = n }))
unfolding modify
OnlyDraws-modify n = record { at = λ w. (n, refl) }

module _ {A B : Type 0} where
  continue-OnlyDraws :
      (r : Result A) (f : A → Action World B) (w w' : World) (n : ℕ)
      → w' ≡ record w { drawn = n }
      → ((a : A) → OnlyDraws (f a))
      → (k : ℕ) × ((continue r f w').1 ≡ record w { drawn = k })
  continue-OnlyDraws (ok a) f w w' n e h =
      let (k, e') = (h a).at w' in (k, e' ∙ ap (λ (v : World). record v { drawn = k }) e)
  continue-OnlyDraws (err x) f w w' n e h = (n, e)

  OnlyDraws-bind :
      (m : Action World A) (f : A → Action World B)
      → OnlyDraws m
      → ((a : A) → OnlyDraws (f a))
      → OnlyDraws (m >>= f)
  unfolding ◌>>=◌
  OnlyDraws-bind m f hm hf = record {
    at = λ w. let (n, e) = hm.at w in continue-OnlyDraws (m w).0 f w (m w).1 n e hf;
  }

  continue-Refuses :
      (r : Result A) (f : A → Action World B) (w w' : World) (n : ℕ)
      → w' ≡ record w { drawn = n }
      → ((a : A) → Refuses (f a))
      → (e : Exception) × (k : ℕ) × (continue r f w' ≡ (err e, record w { drawn = k }))
  continue-Refuses (ok a) f w w' n e h =
      let (x, k, e') = (h a).at w' in
      (x, k, e' ∙ ap (λ (v : World). (err x, record v { drawn = k })) e)
  continue-Refuses (err x) f w w' n e h = (x, n, ap (λ v. (err x, v)) e)

  Refuses-bind :
      (m : Action World A) (f : A → Action World B)
      → OnlyDraws m
      → ((a : A) → Refuses (f a))
      → Refuses (m >>= f)
  unfolding ◌>>=◌
  Refuses-bind m f hm hf = record {
    at = λ w. let (n, e) = hm.at w in continue-Refuses (m w).0 f w (m w).1 n e hf;
  }

  Refuses-lift :
      (r : Result A) (f : A → Action World B) (e : Exception) → r ≡ err e → Refuses (lift r >>= f)
  unfolding lift ◌>>=◌
  Refuses-lift r f e h = record { at = λ w. (e, w.drawn, rw h refl) }

draw-OnlyDraws : (env : Env) → OnlyDraws (draw env)
unfolding draw
draw-OnlyDraws env = record { at = λ w. (w.drawn + 1, refl) }

ruleset draws_rules = (
  OnlyDraws-pure, OnlyDraws-gets, OnlyDraws-lift, OnlyDraws-or_raise, OnlyDraws-modify,
  OnlyDraws-bind, draw-OnlyDraws,
)

new_base-OnlyDraws : (env : Env) (filed_at : Instant) → OnlyDraws (new_base env filed_at)
unfolding new_base
new_base-OnlyDraws env filed_at = search draws_rules

new_delivery-OnlyDraws :
    (env : Env) (filed_at : Instant) (delivery : Option Delivery)
    → OnlyDraws (new_delivery env filed_at delivery)
unfolding new_delivery
new_delivery-OnlyDraws env filed_at none = search draws_rules
new_delivery-OnlyDraws env filed_at (some delivery) = search (draws_rules, new_base-OnlyDraws)

module _ (env : Env) (filed_at : Instant) (invoices : OrderInvoices)
    (credit_items_ids : List Uuid) where
  new_order_item-OnlyDraws :
      (item : AvailableCheckoutItem)
      → OnlyDraws (new_order_item env filed_at invoices credit_items_ids item)
  unfolding new_order_item
  new_order_item-OnlyDraws item = search (draws_rules, new_base-OnlyDraws)

  new_order_items-OnlyDraws :
      (items : List AvailableCheckoutItem)
      → OnlyDraws (new_order_items env filed_at invoices credit_items_ids items)
  unfolding new_order_items
  new_order_items-OnlyDraws [] = search draws_rules
  new_order_items-OnlyDraws (item ∷ items) =
      OnlyDraws-bind _ _ (new_order_item-OnlyDraws item) λ made.
        OnlyDraws-bind _ _ (new_order_items-OnlyDraws items) λ rest. OnlyDraws-pure (made ∷ rest)

-- If an assignment of a dictionary to a list relationship is refused with a TypeError, then
-- `create_order` raises for every user and every cart, and leaves nothing behind: nothing is added
-- to the tables, and the bank is asked for nothing.
pub create_order_refused :
    (env : Env) (filed_at now : Instant) (identity : Option UserIdentity) (ids : List Uuid)
    (delivery : Option Delivery) (items : List AvailableCheckoutItem) (w : World)
    → ((invoice : NewInvoice) (credits : List (Uuid × List NewInvoice))
        → env.assign (a_dict invoice credits) ≡ err type_error)
    → let (result, w') = create_order env filed_at now identity ids delivery items w in
      ((e : Exception) × (result ≡ err e)) × (w'.db ≡ w.db) × (w'.asked ≡ w.asked)
unfolding create_order
create_order_refused env filed_at now identity ids delivery items w h =
    let refused : Refuses (create_order env filed_at now identity ids delivery items) =
      Refuses-bind _ _ (OnlyDraws-gets _) λ drawn. Refuses-bind _ _ (OnlyDraws-modify _) λ _.
        Refuses-bind _ _ (OnlyDraws-or_raise _ _) λ user.
          Refuses-bind _ _ (OnlyDraws-or_raise _ _) λ first.
            Refuses-bind _ _ (new_delivery-OnlyDraws env filed_at delivery) λ row.
              Refuses-bind _ _
                (new_order_items-OnlyDraws env filed_at
                  (make_order_invoices_objects env.uuid4 items ids drawn).0 ids items)
                λ made.
                  Refuses-bind _ _ (new_base-OnlyDraws env filed_at)
                    λ base. Refuses-lift _ _ type_error (h _ _) in
    let (e, n, done) = refused.at w in rw done ((e, refl), refl, refl)
