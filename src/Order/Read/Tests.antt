-- ===== src/Order/Read/Tests.antt =====
-- Instances of the theorems about reading an order.
use fast_api_example.Prelude.{◌*ℤ◌, pos, ◌≡◌, refl, ◌≢◌, true, false, none, some, [], ◌∷◌}
use fast_api_example.Database.{Uuid, BaseOrm, OrderOrm, empty_db}
use fast_api_example.App.{World, ok, get_by_id, ◌>>=◌}
use fast_api_example.Order.Models.{Order}
use fast_api_example.Order.Read.{Reading, get_user_order}
use fast_api_example.Order.Read.Owner.{IsShown, get_user_order-owner}

abbrev base_of : Uuid → BaseOrm
base_of id = record { id = id; created_at = 7; updated_at = none }

abbrev reading : Reading
reading = record { item = λ item. ok item; order = λ order. ok order; day_text = λ t. "01.02.2025" }

abbrev filed : OrderOrm
filed = record {
  base = base_of 1;
  user_id = 9;
  preorder_id = some 80;
  delivery_id = none;
  status = "UNPAID";
}

abbrev shop : World
shop = record {
  db = record empty_db {
    orders = filed ∷ [];
    order_items =
        record {
          base = base_of 11;
          item_id = 21;
          order_id = 1;
          quantity = pos 2;
          price = pos 100;
          by_credit = true;
        }
        ∷ [];
    catalog_items =
        record {
          base = base_of 21;
          publication_id = 50;
          product_id = 60;
          credit_plan_id = some 90;
          price = pos 100;
          is_active = true;
          index = none;
          quantity = none;
          ordered_quantity = pos 2;
        }
        ∷ [];
    products =
        record {
          base = base_of 60;
          category_id = 70;
          title = "figure";
          description = none;
          physical_properties = none;
        }
        ∷ [];
    attachments =
        record { base = base_of 61; product_id = 60; type = "IMAGE"; index = 0; url = "u" } ∷ [];
    credit_plans = record { base = base_of 90; title = "plan" } ∷ [];
    credit_parts =
        record { base = base_of 91; credit_plan_id = 90; sum = pos 60; deadline = 1 }
        ∷ record { base = base_of 92; credit_plan_id = 90; sum = pos 40; deadline = 2 }
        ∷ [];
    preorders =
        record {
          base = base_of 80;
          title = "p";
          prefix = none;
          expected_arrival = none;
          description = none;
          status = "OPEN";
        }
        ∷ [];
    invoices =
        record {
          base = base_of 31;
          order_id = 1;
          order_item_id = none;
          credit_part_index = none;
          title = "t";
          type = "INITIAL";
          amount = pos 120;
          status = "PAID";
        }
        ∷ record {
          base = base_of 32;
          order_id = 1;
          order_item_id = some 11;
          credit_part_index = some 1;
          title = "t";
          type = "CREDIT";
          amount = pos 80;
          status = "UNPAID";
        }
        ∷ [];
  };
  web = record { cart = none; checkout_data = none };
  user = none;
  drawn = 0;
  asked = [];
}

abbrev shown : Order
shown = record {
  id = 1;
  created_at = 7;
  status = "UNPAID";
  delivery = none;
  tracking = none;
  preorder = record {
    id = some 80;
    title = "Предзаказ от 01.02.2025";
    status = "OPEN";
    expected_arrival = none;
  };
  items =
      record {
        id = 21;
        title = "figure";
        image = "u";
        quantity = pos 2;
        sum = pos 200;
        credit = some (record {
          invoice = some (record {
            id = 32;
            credit_part_index = some 1;
            amount = pos 80;
            type = "CREDIT";
            is_paid = false;
          });
          paid_parts = some 1;
          payments =
              record { sum = pos 60; deadline = 1 } ∷ record { sum = pos 40; deadline = 2 } ∷ [];
        });
      }
      ∷ [];
  invoices =
      record {
        id = 31;
        credit_part_index = none;
        amount = pos 120;
        type = "INITIAL";
        is_paid = true;
      }
      ∷ [];
}

owner_reads : get_user_order reading 1 9 shop ≡ (ok shown, shop)
unfolding get_user_order ◌>>=◌ ◌*ℤ◌
owner_reads = refl

get_user_order-owner_example :
    (row : OrderOrm) × (get_by_id (λ r. r.id) 1 shop.db.orders ≡ some row)
    × (row.user_id ≡ 9)
    × (row.preorder_id ≢ none)
    × IsShown reading row shown
    × (shop ≡ shop)
get_user_order-owner_example = get_user_order-owner reading 1 9 shop shop shown owner_reads
