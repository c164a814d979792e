-- ===== src/Order/Models.antt =====
-- The data of src/services/order/models.py.
use fast_api_example.Prelude.{ℕ, ℤ, String, Bool, Option, List}
use fast_api_example.Database.{Uuid, Instant}
use fast_api_example.Catalog.Models.{CreditPart}
use fast_api_example.Order.Constants.{DeliveryService}

pub record Recipient : Type 0 where
  pub full_name : String
  pub phone : String

pub record DeliveryPoint : Type 0 where
  pub address : String
  pub code : String

pub record Delivery : Type 0 where
  pub recipient : Recipient
  pub service : DeliveryService
  pub point : Option DeliveryPoint

pub record Tracking : Type 0 where
  pub code : String
  pub link : String

pub record Invoice : Type 0 where
  pub id : Uuid
  pub credit_part_index : Option ℕ
  pub amount : ℤ
  pub type : String
  pub is_paid : Bool

pub record Credit : Type 0 where
  pub invoice : Option Invoice
  pub paid_parts : Option ℕ
  pub payments : List CreditPart

pub record OrderItem : Type 0 where
  pub id : Uuid
  pub title : String
  pub image : String
  pub quantity : ℤ
  pub sum : ℤ
  pub credit : Option Credit

pub record PreorderInfo : Type 0 where
  pub id : Option Uuid
  pub title : String
  pub status : String
  pub expected_arrival : Option String

-- The values that a `Delivery` is made of when an order is read.
pub record DeliveryInfo : Type 0 where
  pub service : String
  pub address : String
  pub code : Option String
  pub full_name : Option String
  pub phone : Option String

pub record Order : Type 0 where
  pub id : Uuid
  pub created_at : Instant
  pub status : String
  pub delivery : Option DeliveryInfo
  pub tracking : Option Tracking
  pub preorder : PreorderInfo
  pub items : List OrderItem
  pub invoices : List Invoice
