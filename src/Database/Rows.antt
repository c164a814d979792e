-- ===== src/Database/Rows.antt =====
-- The classes of src/database/models.py. Identifiers are numbers, which are only compared, a date
-- is the number of its day, and a moment is its number of microseconds.
use fast_api_example.Prelude.{ℕ, ℤ, String, Bool, Option}

abbrev pub Uuid : Type 0
Uuid = ℕ

abbrev pub Instant : Type 0
Instant = ℕ

abbrev pub Day : Type 0
Day = ℕ

-- The columns of `BaseORM`.
pub record BaseOrm : Type 0 where
  pub id : Uuid
  pub created_at : Instant
  pub updated_at : Option Instant

pub record ProductCategoryOrm : Type 0 where
  pub base : BaseOrm
  pub open base use *
  pub link : String
  pub title : String
  pub is_active : Bool

pub record AttachmentOrm : Type 0 where
  pub base : BaseOrm
  pub open base use *
  pub product_id : Uuid
  pub type : String
  pub index : ℕ
  pub url : String

-- `physical_properties` is the text of its JSON.
pub record ProductOrm : Type 0 where
  pub base : BaseOrm
  pub open base use *
  pub category_id : Uuid
  pub title : String
  pub description : Option String
  pub physical_properties : Option String

pub record ProductFilterOrm : Type 0 where
  pub base : BaseOrm
  pub open base use *
  pub filter_id : Uuid
  pub product_id : Uuid

pub record FilterOrm : Type 0 where
  pub base : BaseOrm
  pub open base use *
  pub filter_group_id : Uuid
  pub value : String

pub record FilterGroupOrm : Type 0 where
  pub base : BaseOrm
  pub open base use *
  pub product_category_id : Uuid
  pub title : String

pub record PreorderOrm : Type 0 where
  pub base : BaseOrm
  pub open base use *
  pub title : String
  pub prefix : Option String
  pub expected_arrival : Option String
  pub description : Option String
  pub status : String

pub record PublicationOrm : Type 0 where
  pub base : BaseOrm
  pub open base use *
  pub preorder_id : Option Uuid
  pub type : String
  pub link : String
  pub delivery_cost_included : Option String

pub record CreditPartOrm : Type 0 where
  pub base : BaseOrm
  pub open base use *
  pub credit_plan_id : Uuid
  pub sum : ℤ
  pub deadline : Day

pub record CreditPlanOrm : Type 0 where
  pub base : BaseOrm
  pub open base use *
  pub title : String

pub record CatalogItemOrm : Type 0 where
  pub base : BaseOrm
  pub open base use *
  pub publication_id : Uuid
  pub product_id : Uuid
  pub credit_plan_id : Option Uuid
  pub price : ℤ
  pub is_active : Bool
  pub index : Option ℕ
  pub quantity : Option ℤ
  pub ordered_quantity : ℤ

pub record OrderOrm : Type 0 where
  pub base : BaseOrm
  pub open base use *
  pub user_id : Uuid
  pub preorder_id : Option Uuid
  pub delivery_id : Option Uuid
  pub status : String

-- `price` is a float column: its values are whole, and are taken as exact.
pub record OrderItemOrm : Type 0 where
  pub base : BaseOrm
  pub open base use *
  pub item_id : Uuid
  pub order_id : Uuid
  pub quantity : ℤ
  pub price : ℤ
  pub by_credit : Bool

pub record PaymentOrm : Type 0 where
  pub base : BaseOrm
  pub open base use *
  pub invoice_id : Uuid
  pub url : String
  pub status : String
  pub external_id : ℤ

pub record InvoiceOrm : Type 0 where
  pub base : BaseOrm
  pub open base use *
  pub order_id : Uuid
  pub order_item_id : Option Uuid
  pub credit_part_index : Option ℕ
  pub title : String
  pub type : String
  pub amount : ℤ
  pub status : String

pub record DeliveryOrm : Type 0 where
  pub base : BaseOrm
  pub open base use *
  pub service : String
  pub address : String
  pub address_identifier : Option String
  pub recipient_name : Option String
  pub recipient_phone : Option String
  pub track_code : Option String

pub record CartItemOrm : Type 0 where
  pub base : BaseOrm
  pub open base use *
  pub user_id : Uuid
  pub item_id : Uuid
  pub quantity : ℤ

pub record UserFavoritesOrm : Type 0 where
  pub base : BaseOrm
  pub open base use *
  pub user_id : Uuid
  pub catalog_item_id : Uuid
