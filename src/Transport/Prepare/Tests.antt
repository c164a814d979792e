-- ===== src/Transport/Prepare/Tests.antt =====
-- Instances of the theorems about the session that a browser holds.
use fast_api_example.Prelude.{ℤ, pos, ◌+◌, ◌≡◌, refl, false, none, some, List, [], ◌∷◌}
use fast_api_example.Errors.{attribute_error, type_error}
use fast_api_example.Database.{empty_db}
use fast_api_example.App.{Env, CartKey, text_key, ok, err}
use fast_api_example.Transport.Session.{Session}
use fast_api_example.Transport.User.{put_text, add_item_to_cart_handler}
use fast_api_example.Transport.Auth.{get_current_user}
use fast_api_example.Transport.Prepare.{Context, fresh, answered, add_item, answer, serve}
use fast_api_example.Transport.Prepare.Carts.{IsPrepared, add_item-session}

abbrev env : Env
env = record {
  uuid4 = λ n. n + 1000;
  post_init = λ request. record {
    is_success = false;
    is_filled = false;
    error_code = none;
    details = none;
    body = err type_error;
  };
  assign = λ given. err type_error;
  payment_part = λ part. ok (record { sum = part.sum; deadline = "" });
}

abbrev visit : Context
visit = record {
  filed_at = 5;
  now = 5;
  reading = record { item = ok; order = ok; day_text = λ moment. "" };
  has_cookie = false;
  whoami = err type_error;
  validated = ok;
}

abbrev first : Session
first = record {
  committed = empty_db;
  world = record {
    db = empty_db;
    web = record { cart = none; checkout_data = none };
    user = none;
    drawn = 0;
    asked = [];
  };
}

-- Without the middleware the first item of a visitor is an AttributeError.
first_unprepared : (serve env visit (add_item 7) first.world).0 ≡ err attribute_error
unfolding serve get_current_user add_item_to_cart_handler
first_unprepared = refl

abbrev second : Session
second = (answer env (λ db. none) visit (add_item 7) first).1

second_cart : second.world.web.cart ≡ some ((text_key 7, pos 1) ∷ [])
unfolding answer get_current_user add_item_to_cart_handler
second_cart = refl

add_item-session_example :
    (cart : List (CartKey × ℤ)) × IsPrepared second.world.web cart
    × ((answer env (λ db. none) visit (add_item 8) second).0 ≡ ok tt)
    × ((answer env (λ db. none) visit (add_item 8) second).1.world.web.cart
        ≡ some (put_text 8 (pos 1) cart))
add_item-session_example =
    add_item-session env (λ db. none) visit 8 second (answered first visit (add_item 7) fresh) refl
      refl
