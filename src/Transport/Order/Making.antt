-- ===== src/Transport/Order/Making.antt =====
-- What a request for an order leaves behind (`make_order_entrypoint` of
-- src/transport/handlers/client/order/entrypoints.py, in the transaction of a request).
use fast_api_example.Prelude.{
  ◌≡◌, refl, ap, ◌∙◌, inl, inr, Bool, false, Option, none, some, List, [], ◌∷◌,
}
use fast_api_example.Errors.{Exception, type_error}
use fast_api_example.Database.{Uuid, Instant, Db}
use fast_api_example.App.{
  Env, World, Action, NewInvoice, a_dict, Result, ok, err, gets, raise_if, continue, ◌>>=◌,
}
use fast_api_example.Catalog.Models.{ShortCheckoutItem, AvailableCheckoutItem}
use fast_api_example.Catalog.Checkout.{reserve_catalog_items}
use fast_api_example.Catalog.Checkout.Reserve.{reserve_catalog_items-cases}
use fast_api_example.Order.Models.{Delivery}
use fast_api_example.Order.Create.{create_order}
use fast_api_example.Order.Create.Refused.{create_order_refused}
use fast_api_example.Transport.Session.{Session, init_ctx_db_session}
use fast_api_example.Transport.Session.Atomic.{init_ctx_db_session-outcome, all_or_nothing}
use fast_api_example.Transport.Order.{read_checkout_data, make_order_entrypoint}

-- The action asks the bank for nothing.
record AsksNothing {A : Type 0} (m : Action World A) : Type 0 where
  at : (w : World) → (m w).1.asked ≡ w.asked

-- The action raises, and asks the bank for nothing.
record Fails {A : Type 0} (m : Action World A) : Type 0 where
  at : (w : World) → ((e : Exception) × ((m w).0 ≡ err e)) × ((m w).1.asked ≡ w.asked)

module _ {A B : Type 0} where
  continue-Fails :
      (r : Result A) (f : A → Action World B) (w w' : World)
      → w'.asked ≡ w.asked
      → ((a : A) → Fails (f a))
      → ((e : Exception) × ((continue r f w').0 ≡ err e)) × ((continue r f w').1.asked ≡ w.asked)
  continue-Fails (ok a) f w w' same h = (((h a).at w').0, ((h a).at w').1 ∙ same)
  continue-Fails (err e) f w w' same h = ((e, refl), same)

  Fails-bind :
      (m : Action World A) (f : A → Action World B)
      → AsksNothing m
      → ((a : A) → Fails (f a))
      → Fails (m >>= f)
  unfolding ◌>>=◌
  Fails-bind m f hm hf = record { at = λ w. continue-Fails (m w).0 f w (m w).1 (hm.at w) hf }

  continue-first :
      (r : Result A) (e : Exception) (f : A → Action World B) (w : World)
      → r ≡ err e
      → continue r f w ≡ (err e, w)
  continue-first r e f w h = rw h refl

  Fails-first : (m : Action World A) (f : A → Action World B) → Fails m → Fails (m >>= f)
  unfolding ◌>>=◌
  Fails-first m f hm = record {
    at = λ w.
        let ((e, raised_there), same) = hm.at w in
        let done = continue-first (m w).0 e f (m w).1 raised_there in
        ((e, ap (λ r. r.0) done), ap (λ r. r.1.asked) done ∙ same);
  }

AsksNothing-gets : {A : Type 0} (f : World → A) → AsksNothing (gets f)
unfolding gets
AsksNothing-gets f = record { at = λ w. refl }

AsksNothing-raise_if : (c : Bool) (e : Exception) → AsksNothing (raise_if {S = World} c e)
unfolding raise_if
AsksNothing-raise_if c e = record { at = λ w. refl }

AsksNothing-reserve : (items : List ShortCheckoutItem) → AsksNothing (reserve_catalog_items items)
AsksNothing-reserve items = record {
  at = λ w. elim (reserve_catalog_items-cases items w) [
    | inl refused ↦ ap (λ r. r.1.asked) refused
    | inr (done, fine) ↦ ap (λ r. r.1.asked) done
  ];
}

read_again :
    (o : Option (List AvailableCheckoutItem)) (w : World)
    → w.web.checkout_data ≡ o
    → (read_checkout_data w).1.asked ≡ w.asked
unfolding read_checkout_data
read_again none w h = rw h refl
read_again (some []) w h = rw h refl
read_again (some (x ∷ xs)) w h = rw h refl

AsksNothing-read : AsksNothing read_checkout_data
AsksNothing-read = record { at = λ w. read_again w.web.checkout_data w refl }

module _ (env : Env) (filed_at now : Instant)
    (refuses : (invoice : NewInvoice) (credits : List (Uuid × List NewInvoice))
      → env.assign (a_dict invoice credits) ≡ err type_error) where
  create_order-Fails :
      (identity : _) (ids : List Uuid) (delivery : Option Delivery)
      (items : List AvailableCheckoutItem)
      → Fails (create_order env filed_at now identity ids delivery items)
  create_order-Fails identity ids delivery items = record {
    at = λ w.
        let (raised_there, db, asked) =
          create_order_refused env filed_at now identity ids delivery items w refuses in
        (raised_there, asked);
  }

  make_order_entrypoint-Fails :
      (ids : List Uuid) (delivery : Option Delivery)
      → Fails (make_order_entrypoint env filed_at now ids delivery)
  unfolding make_order_entrypoint
  make_order_entrypoint-Fails ids delivery = Fails-bind _ _ AsksNothing-read λ items.
      Fails-bind _ _ (AsksNothing-raise_if _ _) λ _. Fails-bind _ _ (AsksNothing-reserve _) λ _.
        Fails-bind _ _ (AsksNothing-gets _)
          λ identity. Fails-first _ _ (create_order-Fails identity ids _ items)

  Fails-in_session :
      {A : Type 0} (commit_error : Db → Option Exception) (handler : Action World A) (s : Session)
      → Fails handler
      → let (r, s') = init_ctx_db_session commit_error false handler s in
        ((e : Exception) × (r ≡ err e))
        × (s'.committed ≡ s.committed)
        × (s'.world.asked ≡ s.world.asked)
  Fails-in_session commit_error handler s fails =
      let ((e, raised_there), asked) = fails.at s.world in
      let done = init_ctx_db_session-outcome commit_error false handler s in
      let stored =
        ap (λ r. all_or_nothing commit_error false (r, (handler s.world).1) s.committed)
          raised_there in
      (
        (e, ap (λ r. r.0) done ∙ ap (λ r. r.0) stored),
        ap (λ r. r.1.committed) done ∙ ap (λ r. r.1) stored,
        ap (λ r. r.1.world.asked) done ∙ asked,
      )

  -- If an assignment of a dictionary to a list relationship is refused with a TypeError, no request
  -- makes an order: whatever is in the session and in the request, the answer is an exception, what
  -- is stored stays as it was, with the pieces that were reserved on the way taken back, and the
  -- bank is asked for nothing.
  pub make_order_entrypoint-refused :
      (commit_error : Db → Option Exception) (ids : List Uuid) (delivery : Option Delivery)
      (s : Session)
      → let (r, s') =
          init_ctx_db_session commit_error false
            (make_order_entrypoint env filed_at now ids delivery)
            s in
        ((e : Exception) × (r ≡ err e))
        × (s'.committed ≡ s.committed)
        × (s'.world.asked ≡ s.world.asked)
  make_order_entrypoint-refused commit_error ids delivery s =
      Fails-in_session commit_error (make_order_entrypoint env filed_at now ids delivery) s
        (make_order_entrypoint-Fails ids delivery)
