-- ===== src/Catalog/Checkout/Tests.antt =====
-- Tests of the checkout, and instances of the theorems about it.
use fast_api_example.Prelude.{
  ◌+ℤ◌, ◌-ℤ◌, ℤ, pos, ◌≤ℤ◌, All, Member, ℕ, ◌≡◌, refl, sym, ap, ◌∙◌, ◌≢◌, inl, inr, true, false,
  Option, none, some, List, [], ◌∷◌, arith,
}
use fast_api_example.Errors.{raise_class, catalog_item_out_of_stock, runtime_error}
use fast_api_example.Database.{Uuid, CatalogItemOrm, BaseOrm, empty_db, quantity_limit}
use fast_api_example.App.{Env, World, err, ok, ◌>>=◌}
use fast_api_example.Errors.{type_error}
use fast_api_example.Catalog.Models.{CatalogItemQuantity, ShortCheckoutItem, CheckoutData}
use fast_api_example.Catalog.Checkout.{verify_checkout_data, reserve_catalog_items, requested}
use fast_api_example.Catalog.Checkout.Sound.{verify_checkout_data_sound, IsVerified, IsAnswered}
use fast_api_example.Catalog.Checkout.Reserve.{
  reserve_catalog_items-quantity_limit, reserve_catalog_items-out_of_stock, reserved,
}
use fast_api_example.Catalog.Checkout.Agreement.{verify-reserve, asked_of}

abbrev base : Uuid → BaseOrm
base id = record { id = id; created_at = 0; updated_at = none }

abbrev row_of : Uuid → Option ℤ → ℤ → CatalogItemOrm
row_of id total ordered = record {
  base = base id;
  publication_id = 50;
  product_id = 60;
  credit_plan_id = none;
  price = pos 100;
  is_active = true;
  index = none;
  quantity = total;
  ordered_quantity = ordered;
}

abbrev stock : List CatalogItemOrm
stock = row_of 1 (some (pos 10)) (pos 7) ∷ row_of 2 none (pos 4) ∷ []

abbrev shop : World
shop = record {
  db = record empty_db {
    catalog_items = stock;
    publications =
        record {
          base = base 50;
          preorder_id = none;
          type = "STOCK";
          link = "p";
          delivery_cost_included = none;
        }
        ∷ [];
    products =
        record {
          base = base 60;
          category_id = 70;
          title = "figure";
          description = none;
          physical_properties = none;
        }
        ∷ [];
  };
  web = record { cart = none; checkout_data = none };
  user = none;
  drawn = 0;
  asked = [];
}

abbrev env : Env
env = record {
  uuid4 = λ n. n;
  post_init = λ request. record {
    is_success = false;
    is_filled = false;
    error_code = none;
    details = none;
    body = err type_error;
  };
  assign = λ given. err type_error;
  payment_part = λ part. ok (record { sum = part.sum; deadline = "" });
}

-- Three of the first item fit, seven of the second are not limited.
abbrev basket : List CatalogItemQuantity
basket = record { id = 1; quantity = pos 4 } ∷ record { id = 2; quantity = pos 2 } ∷ []

abbrev verdict : CheckoutData
verdict = record {
  available_items =
      record {
        short = record { id = 2; quantity = pos 2 };
        preorder_id = none;
        price = pos 100;
        title = "figure";
        credit_parts = none;
      }
      ∷ [];
  adjusted_items = record { id = 1; quantity = pos 3 } ∷ [];
}

basket-verdict : verify_checkout_data env basket shop ≡ (ok verdict, shop)
unfolding verify_checkout_data ◌>>=◌ ◌-ℤ◌
basket-verdict = refl

-- An empty list of items ends in the `RuntimeError` that a StopIteration in a coroutine becomes.
empty_basket : verify_checkout_data env [] shop ≡ (err runtime_error, shop)
unfolding verify_checkout_data ◌>>=◌
empty_basket = refl

verify_checkout_data_sound_example :
    (shop ≡ shop) × IsVerified shop.db 2 verdict × IsAnswered shop.db basket verdict
verify_checkout_data_sound_example =
    verify_checkout_data_sound env basket shop shop verdict basket-verdict

abbrev three : List ShortCheckoutItem
three = record { id = 1; quantity = pos 3 } ∷ []

abbrev four : List ShortCheckoutItem
four = record { id = 1; quantity = pos 4 } ∷ []

stock_limit : All (λ row. quantity_limit row ≡ true) shop.db.catalog_items
unfolding quantity_limit
stock_limit = (refl, (refl, tt))

reserve_catalog_items-quantity_limit_example :
    All (λ row. quantity_limit row ≡ true) (reserve_catalog_items three shop).1.db.catalog_items
reserve_catalog_items-quantity_limit_example =
    reserve_catalog_items-quantity_limit three shop stock_limit

four_asked : requested four 1 ≡ some (pos 4)
unfolding requested
four_asked = refl

too_many : pos 7 +ℤ pos 4 ≤ℤ pos 10 → ⊥
unfolding ◌+ℤ◌
too_many h = omega arith

reserve_catalog_items-out_of_stock_example :
    reserve_catalog_items four shop ≡ (err (raise_class catalog_item_out_of_stock), shop)
reserve_catalog_items-out_of_stock_example =
    reserve_catalog_items-out_of_stock four shop (row_of 1 (some (pos 10)) (pos 7)) (pos 4)
      (inl refl) four_asked too_many

one_two : ◌≢◌ {A = ℕ} 1 2
one_two = omega arith

stock_keyed : (a b : CatalogItemOrm) → Member a stock → Member b stock → a.id ≡ b.id → a ≡ b
stock_keyed a b (inl x) (inl y) e = x ∙ sym y
stock_keyed a b (inr (inl x)) (inr (inl y)) e = x ∙ sym y
stock_keyed a b (inl x) (inr (inl y)) e =
    absurd (one_two (sym (ap (λ r. r.id) x) ∙ e ∙ ap (λ r. r.id) y))
stock_keyed a b (inr (inl x)) (inl y) e =
    absurd (one_two (sym (ap (λ r. r.id) y) ∙ sym e ∙ ap (λ r. r.id) x))
stock_keyed a b (inl x) (inr (inr y)) e = absurd y
stock_keyed a b (inr (inl x)) (inr (inr y)) e = absurd y
stock_keyed a b (inr (inr x)) m e = absurd x

verify-reserve_example :
    reserve_catalog_items (asked_of verdict) shop ≡ (ok tt, reserved (asked_of verdict) shop)
verify-reserve_example =
    verify-reserve env basket shop shop verdict stock_keyed
      ((λ e. ground arith), ((λ e. ground arith), tt)) basket-verdict
