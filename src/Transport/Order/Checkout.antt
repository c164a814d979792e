-- ===== src/Transport/Order/Checkout.antt =====
-- What a checkout leaves behind (`make_checkout` of
-- src/transport/handlers/client/order/entrypoints.py).
use mathlib.Core.Path.{subst}
use fast_api_example.Prelude.{
  Option-cases, length, All, ◌≡◌, refl, sym, ap, ◌∙◌, ◌≢◌, inl, inr, false, Option, some, List, [],
  ◌∷◌, arith,
}
use fast_api_example.Errors.{Exception, raise_class, invalid_checkout_data}
use fast_api_example.Database.{Db}
use fast_api_example.User.{update_cart_items, set_all}
use fast_api_example.App.{continue, Env, World, UserIdentity, Result-cases, ok, err, ◌>>=◌}
use fast_api_example.Catalog.Models.{
  CatalogItemQuantity, ShortCheckoutItem, AvailableCheckoutItem, CheckoutData,
}
use fast_api_example.Catalog.Checkout.{verify_checkout_data}
use fast_api_example.Catalog.Checkout.Sound.{IsOffered, IsAnswered, verify_checkout_data_sound}
use fast_api_example.Transport.Session.{Session, init_ctx_db_session}
use fast_api_example.Transport.Session.Atomic.{init_ctx_db_session-outcome, all_or_nothing}
use fast_api_example.Transport.Order.{make_checkout, keep_or_adjust}

keep_or_adjust-ok :
    (available : List AvailableCheckoutItem) (adjusted : List ShortCheckoutItem) (w w' : World)
    → keep_or_adjust available adjusted w ≡ (ok tt, w')
    → (adjusted ≡ []) × (w' ≡ record w { web = record w.web { checkout_data = some available } })
unfolding keep_or_adjust ◌>>=◌
keep_or_adjust-ok available [] w w' h = (refl, ap (λ r. r.1) (sym h))
keep_or_adjust-ok available (item ∷ items) w w' h = elim (Option-cases w.user) [
  | inl e ↦ absurd (ground arith)
  | inr (user, e) ↦ absurd (ground arith)
]

-- A checkout that succeeds keeps in the session the items that were asked for, in their order and
-- with the quantities asked for, all of them active, at the prices of their rows and with room for
-- their quantities (or with a total of zero); it changes nothing else.
pub make_checkout-ok :
    (env : Env) (items : List CatalogItemQuantity) (w w' : World)
    → make_checkout env items w ≡ (ok tt, w')
    → (kept : List AvailableCheckoutItem) × (w'
        ≡ record w { web = record w.web { checkout_data = some kept } })
      × (length kept ≡ length items)
      × All (IsOffered w.db) kept
      × IsAnswered w.db items (record { available_items = kept; adjusted_items = [] })
unfolding make_checkout ◌>>=◌
make_checkout-ok env items w w' h = elim (Result-cases (verify_checkout_data env items w).0) [
  | inr (e, bad) ↦ absurd (ground arith)
  | inl (checked, good) ↦
      (let v = (verify_checkout_data env items w).1 in
        let (same, verified, answered) =
          verify_checkout_data_sound env items w v checked (ap (λ r. (r, v)) good) in
        let rest =
          ap (λ r. continue r (λ c. keep_or_adjust c.available_items c.adjusted_items) v) good in
        let (all_there, last) =
          keep_or_adjust-ok checked.available_items checked.adjusted_items v w' (sym rest ∙ h) in
        (
          checked.available_items,
          last
              ∙ ap
                  (λ (u : World). record u {
                    web = record u.web { checkout_data = some checked.available_items };
                  })
                  same,
          omega (arith, verified.2, ap length all_there),
          verified.0,
          subst
              (λ cut.
                IsAnswered w.db items
                  (record { available_items = checked.available_items; adjusted_items = cut }))
              all_there answered,
        ))
]

keep_or_adjust-cut :
    (available : List AvailableCheckoutItem) (adjusted : List ShortCheckoutItem) (w : World)
    (user : UserIdentity)
    → adjusted ≢ []
    → w.user ≡ some user
    → (db : Db) × (keep_or_adjust available adjusted w
        ≡ (err (raise_class invalid_checkout_data), record w { db = db }))
unfolding keep_or_adjust update_cart_items ◌>>=◌
keep_or_adjust-cut available [] w user ne signed = absurd (ne refl)
keep_or_adjust-cut available (item ∷ items) w user ne signed =
    (record w.db { cart_items = set_all user.id (item ∷ items) w.db.cart_items }, rw signed refl)

-- A checkout of a signed-in user for which some item has to be cut answers
-- `InvalidCheckoutDataError`, keeps the session as it was, and in the transaction of its request
-- stores nothing: the cart is not adjusted.
pub make_checkout-cut :
    (env : Env) (commit_error : Db → Option Exception) (items : List CatalogItemQuantity)
    (s : Session) (user : UserIdentity) (checked : CheckoutData)
    → s.world.user ≡ some user
    → verify_checkout_data env items s.world ≡ (ok checked, s.world)
    → checked.adjusted_items ≢ []
    → let (r, s') = init_ctx_db_session commit_error false (make_checkout env items) s in
      (r ≡ err (raise_class invalid_checkout_data))
      × (s'.committed ≡ s.committed)
      × (s'.world.web ≡ s.world.web)
unfolding make_checkout ◌>>=◌
make_checkout-cut env commit_error items s user checked signed h ne =
    let (db, cut) =
      keep_or_adjust-cut checked.available_items checked.adjusted_items s.world user ne signed in
    let run : make_checkout env items s.world
        ≡ (err (raise_class invalid_checkout_data), record s.world { db = db }) =
      rw h cut in
    let done = init_ctx_db_session-outcome commit_error false (make_checkout env items) s in
    let stored = ap (λ r. all_or_nothing commit_error false r s.committed) run in
    (
      ap (λ r. r.0) done ∙ ap (λ r. r.0) stored,
      ap (λ r. r.1.committed) done ∙ ap (λ r. r.1) stored,
      ap (λ r. r.1.world.web) done ∙ ap (λ r. r.1.web) run,
    )
