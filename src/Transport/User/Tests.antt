-- ===== src/Transport/User/Tests.antt =====
-- Instances of the theorems about the handlers of the user's items.
use fast_api_example.Prelude.{ℤ, pos, All, ◌+◌, ◌≡◌, ◌≢◌, refl, false, none, some, List, [], ◌∷◌}
use fast_api_example.Errors.{key_error, type_error}
use fast_api_example.Database.{Uuid, empty_db}
use fast_api_example.App.{Env, World, CartKey, text_key, ok, err}
use fast_api_example.Transport.User.{add_item_to_cart_handler, remove_items_from_cart_handler}
use fast_api_example.Transport.User.Limits.{IsText, text_quantity, session_cart-IsText}

abbrev env : Env
env = record {
  uuid4 = λ n. n + 1000;
  post_init = λ request. record {
    is_success = false;
    is_filled = false;
    error_code = none;
    details = none;
    body = err type_error;
  };
  assign = λ given. err type_error;
  payment_part = λ part. ok (record { sum = part.sum; deadline = "" });
}

abbrev cart : List (CartKey × ℤ)
cart = (text_key 1, pos 1) ∷ []

abbrev visit : World
visit = record {
  db = empty_db;
  web = record { cart = some cart; checkout_data = none };
  user = none;
  drawn = 0;
  asked = [];
}

session_cart-IsText_example :
    ((more : List (CartKey × ℤ)) × All IsText more
      × (text_quantity 1 more ≡ some (pos 1))
      × ((other : Uuid) → other ≢ 1 → text_quantity other more ≡ text_quantity other cart)
      × (add_item_to_cart_handler env 0 1 visit
          ≡ (ok tt, record visit { web = record visit.web { cart = some more } })))
    × (remove_items_from_cart_handler (1 ∷ []) visit ≡ (err key_error, visit))
session_cart-IsText_example = session_cart-IsText env 0 1 [] cart visit refl refl (tt, tt)
