-- ===== src/Catalog/Models.antt =====
-- The data of src/services/catalog/models.py and the transfer objects of
-- src/database/repositories/catalog.py that the checkout uses.
use fast_api_example.Prelude.{
  ◌-ℤ◌, ◌*ℤ◌, ℤ, pos, negsuc, if◌then◌else◌, zero, suc, String, Bool, true, false, Option, none,
  some, List,
}
use fast_api_example.Database.{Uuid, Day}

pub record CreditPaymentPart : Type 0 where
  pub sum : ℤ
  pub deadline : String

-- `CreditPart` of the repository: its deadline is a date.
pub record CreditPart : Type 0 where
  pub sum : ℤ
  pub deadline : Day

pub record CatalogItemQuantity : Type 0 where
  pub id : Uuid
  pub quantity : ℤ

pub record ShortCheckoutItem : Type 0 where
  pub id : Uuid
  pub quantity : ℤ

-- `class AvailableCheckoutItem(ShortCheckoutItem)`
pub record AvailableCheckoutItem : Type 0 where
  pub short : ShortCheckoutItem
  pub open short use *
  pub preorder_id : Option Uuid
  pub price : ℤ
  pub title : String
  pub credit_parts : Option (List CreditPaymentPart)

unfoldable pub amount_converted : AvailableCheckoutItem → ℤ
amount_converted item = item.price *ℤ item.quantity *ℤ pos 100

unfoldable pub price_converted : AvailableCheckoutItem → ℤ
price_converted item = item.price *ℤ pos 100

pub record CheckoutData : Type 0 where
  pub available_items : List AvailableCheckoutItem
  pub adjusted_items : List ShortCheckoutItem

pub record CatalogItemCheckoutDataDto : Type 0 where
  pub id : Uuid
  pub total : Option ℤ
  pub ordered : ℤ
  pub price : ℤ
  pub preorder_id : Option Uuid
  pub title : String
  pub credit_parts : Option (List CreditPart)

-- The truth of a number that may be `None`: zero is false.
unfoldable pub truthy : Option ℤ → Bool
truthy none = false
truthy (some (pos zero)) = false
truthy (some (pos (suc n))) = true
truthy (some (negsuc n)) = true

-- `(self.total - self.ordered) if self.total else None`
unfoldable pub available : CatalogItemCheckoutDataDto → Option ℤ
unfolding truthy
available item = elim item.total [
  | none ↦ none
  | some total ↦ (if truthy (some total) then some (total -ℤ item.ordered) else none)
]
