-- ===== src/Transport/Order/Tests.antt =====
-- Instances of the theorems about the handlers of orders.
use fast_api_example.Prelude.{
  ◌-ℤ◌, pos, ◌+◌, ◌≡◌, refl, true, false, none, some, List, [], ◌∷◌, arith,
}
use fast_api_example.Errors.{Exception, raise_class, invalid_checkout_data, type_error}
use fast_api_example.Database.{Uuid, BaseOrm, CatalogItemOrm, empty_db}
use fast_api_example.App.{
  Env, World, UserIdentity, NewInvoice, Assigned, a_dict, a_list, a_none, Result, ok, err, ◌>>=◌,
}
use fast_api_example.Catalog.Models.{CatalogItemQuantity, AvailableCheckoutItem, CheckoutData}
use fast_api_example.Catalog.Checkout.{verify_checkout_data}
use fast_api_example.Transport.Session.{Session, init_ctx_db_session}
use fast_api_example.Transport.Order.{make_checkout, make_order_entrypoint}
use fast_api_example.Transport.Order.Making.{make_order_entrypoint-refused}
use fast_api_example.Transport.Order.Checkout.{make_checkout-ok, make_checkout-cut}
use fast_api_example.Catalog.Checkout.Sound.{IsOffered, IsAnswered}
use fast_api_example.Prelude.{All, length}

abbrev buyer : UserIdentity
buyer = record {
  id = 9;
  schema_id = "customer";
  state = "active";
  email = "a@b.c";
  first_name = "A";
  last_name = "B";
  phone = "+7";
  verified = true;
  metadata_public = none;
}

-- A relationship that holds a list takes a list, and refuses a dictionary and `None`.
abbrev list_only : Assigned → Result (List NewInvoice)
list_only (a_dict invoice credits) = err type_error
list_only (a_list invoices) = ok invoices
list_only a_none = err type_error

abbrev env : Env
env = record {
  uuid4 = λ n. n + 1000;
  post_init = λ request. record {
    is_success = false;
    is_filled = false;
    error_code = none;
    details = none;
    body = err type_error;
  };
  assign = list_only;
  payment_part = λ part. ok (record { sum = part.sum; deadline = "" });
}

abbrev base_of : Uuid → BaseOrm
base_of id = record { id = id; created_at = 0; updated_at = none }

abbrev figure : CatalogItemOrm
figure = record {
  base = base_of 1;
  publication_id = 50;
  product_id = 60;
  credit_plan_id = none;
  price = pos 100;
  is_active = true;
  index = none;
  quantity = some (pos 10);
  ordered_quantity = pos 7;
}

abbrev bought : AvailableCheckoutItem
bought = record {
  short = record { id = 1; quantity = pos 2 };
  preorder_id = some 80;
  price = pos 100;
  title = "figure";
  credit_parts = none;
}

abbrev shop : World
shop = record {
  db = record empty_db {
    catalog_items = figure ∷ [];
    publications =
        record {
          base = base_of 50;
          preorder_id = some 80;
          type = "PREORDER";
          link = "p";
          delivery_cost_included = none;
        }
        ∷ [];
    products =
        record {
          base = base_of 60;
          category_id = 70;
          title = "figure";
          description = none;
          physical_properties = none;
        }
        ∷ [];
  };
  web = record { cart = some []; checkout_data = none };
  user = some buyer;
  drawn = 0;
  asked = [];
}

abbrev two : List CatalogItemQuantity
two = record { id = 1; quantity = pos 2 } ∷ []

abbrev four : List CatalogItemQuantity
four = record { id = 1; quantity = pos 4 } ∷ []

abbrev ready : World
ready = record shop { web = record { cart = some []; checkout_data = some (bought ∷ []) } }

two_kept : make_checkout env two shop ≡ (ok tt, ready)
unfolding make_checkout verify_checkout_data ◌>>=◌ ◌-ℤ◌
two_kept = refl

make_checkout-ok_example :
    (kept : List AvailableCheckoutItem) × (ready
      ≡ record shop { web = record shop.web { checkout_data = some kept } })
    × (length kept ≡ 1)
    × All (IsOffered shop.db) kept
    × IsAnswered shop.db two (record { available_items = kept; adjusted_items = [] })
make_checkout-ok_example = make_checkout-ok env two shop ready two_kept

abbrev start : Session
start = record { committed = shop.db; world = shop }

abbrev cut : CheckoutData
cut = record { available_items = []; adjusted_items = record { id = 1; quantity = pos 3 } ∷ [] }

four-cut : verify_checkout_data env four shop ≡ (ok cut, shop)
unfolding verify_checkout_data ◌>>=◌ ◌-ℤ◌
four-cut = refl

make_checkout-cut_example :
    let (r, s') = init_ctx_db_session (λ db. none) false (make_checkout env four) start in
    (r ≡ err (raise_class invalid_checkout_data))
    × (s'.committed ≡ start.committed)
    × (s'.world.web ≡ start.world.web)
make_checkout-cut_example =
    make_checkout-cut env (λ db. none) four start buyer cut refl four-cut (λ e. ground arith)

abbrev asked : Session
asked = record { committed = shop.db; world = ready }

make_order_entrypoint-refused_example :
    let (r, s') =
      init_ctx_db_session (λ db. none) false (make_order_entrypoint env 5 5 [] none) asked in
    ((e : Exception) × (r ≡ err e))
    × (s'.committed ≡ asked.committed)
    × (s'.world.asked ≡ asked.world.asked)
make_order_entrypoint-refused_example =
    make_order_entrypoint-refused env 5 5 (λ invoice credits. refl) (λ db. none) [] none asked
