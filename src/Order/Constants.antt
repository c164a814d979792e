-- ===== src/Order/Constants.antt =====
-- The enumerations and the mappings of src/services/order/constants.py. A member of a `StrEnum` is
-- its text, so the texts of the tables serve as keys.
use fast_api_example.Prelude.{if◌then◌else◌, String, Option, none, some, str_eq}

pub data DeliveryService : Type 0 where
  cdek self_pickup : DeliveryService

unfoldable pub service_value : DeliveryService → String
service_value cdek = "CDEK"
service_value self_pickup = "SELF_PICKUP"

pub data InvoiceStatus : Type 0 where
  unpaid waiting paid canceled : InvoiceStatus

unfoldable pub invoice_status_value : InvoiceStatus → String
invoice_status_value unpaid = "UNPAID"
invoice_status_value waiting = "WAITING"
invoice_status_value paid = "PAID"
invoice_status_value canceled = "CANCELED"

pub data OrderStatus : Type 0 where
  unpaid accepted assembly delivery finished canceled : OrderStatus

unfoldable pub order_status_value : OrderStatus → String
order_status_value OrderStatus.unpaid = "UNPAID"
order_status_value OrderStatus.accepted = "ACCEPTED"
order_status_value OrderStatus.assembly = "ASSEMBLY"
order_status_value OrderStatus.delivery = "DELIVERY"
order_status_value OrderStatus.finished = "FINISHED"
order_status_value OrderStatus.canceled = "CANCELED"

pub data InvoiceType : Type 0 where
  initial credit shipping_foreign shipping_local : InvoiceType

unfoldable pub invoice_type_value : InvoiceType → String
invoice_type_value initial = "INITIAL"
invoice_type_value credit = "CREDIT"
invoice_type_value shipping_foreign = "SHIPPING_FOREIGN"
invoice_type_value shipping_local = "SHIPPING_LOCAL"

-- `PAYMENT_TO_INVOICE_STATUS_MAPPING.get(status)`
unfoldable pub payment_to_invoice_status : String → Option InvoiceStatus
payment_to_invoice_status status =
    if str_eq status "AUTHORIZED"
    then some InvoiceStatus.waiting
    else if str_eq status "CONFIRMED"
    then some InvoiceStatus.paid
    else none

-- `INVOICE_TO_ORDER_STATUS_MAPPING.get(status)`
unfoldable pub invoice_to_order_status : String → Option OrderStatus
unfolding invoice_status_value
invoice_to_order_status status =
    if str_eq status (invoice_status_value InvoiceStatus.paid)
    then some OrderStatus.accepted
    else none

-- `DELIVERY_TRACKING_LINK_MAPPING.get(service)`
unfoldable pub delivery_tracking_link : String → Option String
unfolding service_value
delivery_tracking_link service =
    if str_eq service (service_value cdek)
    then some "https://www.cdek.ru/ru/tracking/?order_id="
    else none
