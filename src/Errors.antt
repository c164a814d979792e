-- ===== src/Errors.antt =====
-- The exception classes of the program: src/errors/base.py, auth.py and transport.py, and the
-- errors of the services, of the repositories and of the integrations.
pub mod Hierarchy
pub mod Handling
mod Tests
use fast_api_example.Prelude.{
  ℕ, String, Bool, true, false, Option, none, some, List, [], ◌∷◌, ◌++◌, if◌then◌else◌,
}

-- The class that an exception class names as its base; `UserFacing` classes stand below it.
pub data Base : Type 0 where
  base_error server_error expected_error : Base

-- The classes that the program raises.
pub data ErrorClass : Type 0 where
  generic_server_error : ErrorClass
  unauthorized unverified forbidden : ErrorClass
  unknown_answer validation input_validation response_validation not_found logging : ErrorClass
  s3_upload_file init_payment : ErrorClass
  category_not_found incorrect_items_sections : ErrorClass
  invalid_checkout_data checkout_data_is_empty : ErrorClass
  cart_item_quantity_invalid : ErrorClass
  catalog_item_not_found catalog_item_out_of_stock cart_item_not_found : ErrorClass

-- `class C(B)`. `ServerError` itself is a subclass of itself, as `issubclass` has it.
unfoldable pub base : ErrorClass → Base
base generic_server_error = server_error
base unauthorized = expected_error
base unverified = expected_error
base forbidden = expected_error
base unknown_answer = server_error
base validation = server_error
base input_validation = server_error
base response_validation = server_error
base not_found = server_error
base logging = expected_error
base s3_upload_file = server_error
base init_payment = server_error
base category_not_found = base_error
base incorrect_items_sections = base_error
base invalid_checkout_data = server_error
base checkout_data_is_empty = expected_error
base cart_item_quantity_invalid = expected_error
base catalog_item_not_found = expected_error
base catalog_item_out_of_stock = base_error
base cart_item_not_found = expected_error

-- `issubclass(c, ServerError)`; `class ExpectedError(ServerError)`
unfoldable pub is_server_error : ErrorClass → Bool
unfolding base
is_server_error c = elim (base c) [
  | base_error ↦ false
  | server_error ↦ true
  | expected_error ↦ true
]

-- `issubclass(c, ExpectedError)`
unfoldable pub is_expected_error : ErrorClass → Bool
unfolding base
is_expected_error c = elim (base c) [ expected_error ↦ true | _ ↦ false ]

-- The class attribute, inherited from `ServerError` where the class has none.
unfoldable pub status_code : ErrorClass → ℕ
status_code generic_server_error = 520
status_code unauthorized = 401
status_code unverified = 401
status_code forbidden = 403
status_code unknown_answer = 502
status_code validation = 400
status_code input_validation = 400
status_code response_validation = 500
status_code not_found = 404
status_code logging = 500
status_code s3_upload_file = 520
status_code init_payment = 520
status_code category_not_found = 404
status_code incorrect_items_sections = 400
status_code invalid_checkout_data = 400
status_code checkout_data_is_empty = 400
status_code cart_item_quantity_invalid = 400
status_code catalog_item_not_found = 404
status_code catalog_item_out_of_stock = 400
status_code cart_item_not_found = 404

-- The class attribute: `False` at `BaseError`, `True` at `ServerError`, `False` at
-- `ExpectedError` and where the class says so.
unfoldable pub capture_by_sentry : ErrorClass → Bool
capture_by_sentry generic_server_error = true
capture_by_sentry s3_upload_file = true
capture_by_sentry init_payment = true
capture_by_sentry invalid_checkout_data = true
capture_by_sentry _ = false

abbrev title_text : ErrorClass → String
title_text generic_server_error = "ServerError"
title_text unauthorized = "UnauthorizedError"
title_text unverified = "UnverifiedError"
title_text forbidden = "ForbiddenError"
title_text unknown_answer = "UnknownAnswerError"
title_text validation = "ValidationError"
title_text input_validation = "InputValidationError"
title_text response_validation = "ResponseValidationError"
title_text not_found = "NotFoundError"
title_text logging = "LoggingError"
title_text s3_upload_file = "S3UploadFileError"
title_text init_payment = "InitPaymentError"
title_text category_not_found = "CategoryNotFoundError"
title_text incorrect_items_sections = "IncorrectItemsSectionsError"
title_text invalid_checkout_data = "InvalidCheckoutDataError"
title_text checkout_data_is_empty = "CheckoutDataIsEmptyError"
title_text cart_item_quantity_invalid = "CartItemQuantityInvalidError"
title_text catalog_item_not_found = "CatalogItemNotFoundError"
title_text catalog_item_out_of_stock = "CatalogItemOutOfStockError"
title_text cart_item_not_found = "CartItemNotFoundError"

-- The class attribute `message`.
unfoldable pub class_message : ErrorClass → String
class_message generic_server_error = "Что-то пошло не так."
class_message unauthorized = "Отсутствует доступ для неавторизованного пользователя."
class_message unverified = "Пользователь не подтвердил свою почту"
class_message forbidden = "Недостаточно прав"
class_message unknown_answer = "Bad Gateway"
class_message validation = "Ошибка проверки данных"
class_message input_validation = "Некорректный запрос"
class_message response_validation = "Ошибка валидации ответа"
class_message not_found = "Pecypc не найден"
class_message logging = "Внутренняя ошибка при работе c логами"
class_message s3_upload_file = "Не удалось загрузить файл"
class_message init_payment = "Что-то пошло не так."
class_message category_not_found = "Категория не найдена"
class_message incorrect_items_sections = "Товары состоят в разных секциях"
class_message invalid_checkout_data = "Неверные данные для оформления заказа"
class_message checkout_data_is_empty = "Отсутствуют данные для оформления заказа"
class_message cart_item_quantity_invalid = "Неверное кол-во единиц товара в корзине"
class_message catalog_item_not_found = "Товар не найден"
class_message catalog_item_out_of_stock = "Отсутствует необходимое кол-во товаров"
class_message cart_item_not_found = "Товар не найден"

-- An instance of `ServerError` or of a class below it; a missing text is Python's `None`.
pub record ServerError : Type 0 where
  pub error_class : ErrorClass
  pub message : String
  pub debug : Option String
  pub sentry_id : Option String

-- `message or self.message`: an empty text counts as missing.
or_text : Option String → String → String
or_text none d = d
or_text (some String.[]) d = d
or_text (some (String.◌∷◌ c s)) d = String.◌∷◌ c s

-- `ServerError.__init__(message, debug)`
unfoldable pub make_error : ErrorClass → Option String → Option String → ServerError
unfolding or_text class_message
make_error c message debug = record {
  error_class = c;
  message = or_text message (class_message c);
  debug = debug;
  sentry_id = none;
}

-- `BaseError.title`
unfoldable pub title : ServerError → String
title e = title_text e.error_class

-- The JSON object of `as_dict`: its keys in order.
pub data Json : Type 0 where
  text : String → Json
  null : Json

unfoldable pub text_or_null : Option String → Json
text_or_null none = null
text_or_null (some s) = text s

-- `BaseError.as_dict(is_debug=...)`
unfoldable pub as_dict : ServerError → Bool → List (String × Json)
unfolding title text_or_null
as_dict e is_debug =
    ("title", text (title e))
    ∷ ("message", text e.message)
    ∷ (if is_debug then ("debug", text_or_null e.debug) ∷ [] else [])

-- What Python raises here: an instance of a class of the program, or of another package.
pub data Exception : Type 0 where
  raised : ServerError → Exception
  -- an instance of a class directly below `BaseError`
  raised_base : ErrorClass → Exception
  attribute_error type_error key_error index_error runtime_error not_implemented : Exception
  -- of pydantic, of FastAPI, of the database driver and of an HTTP client
  validation_failed request_validation_failed response_validation_failed : String → Exception
  integrity_error http_status_error : Exception
  other : String → Exception

-- `raise C`
unfoldable pub raise_class : ErrorClass → Exception
unfolding make_error is_server_error
raise_class c = if is_server_error c then raised (make_error c none none) else raised_base c

-- `issubclass(type(error), ExpectedError)`
unfoldable pub is_expected : Exception → Bool
unfolding is_expected_error
is_expected (raised e) = is_expected_error e.error_class
is_expected _ = false
