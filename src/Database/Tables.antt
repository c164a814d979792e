-- ===== src/Database/Tables.antt =====
-- The tables of src/database/models.py and the constraints that the table arguments declare.
use fast_api_example.Prelude.{pos, ltb_ℤ, leb_ℤ, Bool, true, none, some, List, []}
use fast_api_example.Database.Rows.{
  ProductCategoryOrm, AttachmentOrm, ProductOrm, ProductFilterOrm, FilterOrm, FilterGroupOrm,
  PreorderOrm, PublicationOrm, CreditPartOrm, CreditPlanOrm, CatalogItemOrm, OrderOrm, OrderItemOrm,
  PaymentOrm, InvoiceOrm, DeliveryOrm, CartItemOrm, UserFavoritesOrm,
}

pub record Db : Type 0 where
  pub categories : List ProductCategoryOrm
  pub attachments : List AttachmentOrm
  pub products : List ProductOrm
  pub product_filters : List ProductFilterOrm
  pub filters : List FilterOrm
  pub filter_groups : List FilterGroupOrm
  pub preorders : List PreorderOrm
  pub publications : List PublicationOrm
  pub credit_parts : List CreditPartOrm
  pub credit_plans : List CreditPlanOrm
  pub catalog_items : List CatalogItemOrm
  pub orders : List OrderOrm
  pub order_items : List OrderItemOrm
  pub payments : List PaymentOrm
  pub invoices : List InvoiceOrm
  pub deliveries : List DeliveryOrm
  pub cart_items : List CartItemOrm
  pub favorites : List UserFavoritesOrm

-- `quantity_limit`: quantity IS NULL OR ordered_quantity <= quantity
unfoldable pub quantity_limit : CatalogItemOrm → Bool
quantity_limit item = elim item.quantity [
  | none ↦ true
  | some total ↦ leb_ℤ item.ordered_quantity total
]

-- `positive_cart_item_quantity_check`: quantity > 0
unfoldable pub positive_cart_item_quantity : CartItemOrm → Bool
positive_cart_item_quantity item = ltb_ℤ (pos 0) item.quantity

abbrev pub empty_db : Db
empty_db = record {
  categories = [];
  attachments = [];
  products = [];
  product_filters = [];
  filters = [];
  filter_groups = [];
  preorders = [];
  publications = [];
  credit_parts = [];
  credit_plans = [];
  catalog_items = [];
  orders = [];
  order_items = [];
  payments = [];
  invoices = [];
  deliveries = [];
  cart_items = [];
  favorites = [];
}
