-- ===== src/Tinkoff/Models.antt =====
-- The messages of src/integrations/tinkoff/models.py. `token` and `terminal_key` of a request are
-- set when it is sent; `redirect_due_date` is a moment.
use fast_api_example.Prelude.{ℤ, String, Bool, Option, List}
use fast_api_example.Database.{Uuid, Instant}

pub record ReceiptItem : Type 0 where
  pub name : String
  pub price : ℤ
  pub quantity : ℤ
  pub amount : ℤ
  pub tax : String

pub record Receipt : Type 0 where
  pub email : String
  pub phone : String
  pub taxation : String
  pub items : List ReceiptItem

-- `description` is the text 'Номер заказа: ' followed by the order's identifier, which it holds
-- as the identifier itself.
pub record InitPaymentRequest : Type 0 where
  pub amount : ℤ
  pub order_id : Uuid
  pub description_prefix : String
  pub description_order : Uuid
  pub redirect_due_date : Option Instant
  pub phone : String
  pub email : String
  pub receipt : Receipt

pub record InitPaymentResponse : Type 0 where
  pub terminal_key : String
  pub status : String
  pub payment_id : ℤ
  pub order_id : Uuid
  pub amount : ℤ
  pub payment_url : String

pub record PaymentStatusNotification : Type 0 where
  pub token : Option String
  pub amount : ℤ
  pub card_id : ℤ
  pub error_code : String
  pub exp_date : String
  pub invoice_id : Uuid
  pub pan : String
  pub payment_id : ℤ
  pub status : String
  pub success : Bool
