-- ===== src/App/Monad.antt =====
-- The state of a request and the actions on it. The code of the identity provider, of the bank and
-- of `uuid4` is not part of the repository: it is the parameter `Env` of the actions that use it.
use fast_api_example.Prelude.{
  ℤ, ◌==◌, if◌then◌else◌, find, ℕ, String, ◌≡◌, refl, ◌⊎◌, inl, inr, Bool, Option, none, some, List,
  map,
}
use fast_api_example.Errors.{Exception}
use fast_api_example.Database.{Uuid, Db}
use fast_api_example.Catalog.Models.{AvailableCheckoutItem, CreditPart, CreditPaymentPart}
use fast_api_example.Tinkoff.{InitPaymentRequest, InitPaymentResponse}

-- `UserIdentity` of src/integrations/ory_kratos/models.py, with the fields of its `Traits`; the
-- public metadata is its JSON text.
pub record UserIdentity : Type 0 where
  pub id : Uuid
  pub schema_id : String
  pub state : String
  pub email : String
  pub first_name : String
  pub last_name : String
  pub phone : String
  pub verified : Bool
  pub metadata_public : Option String

-- A key of the dictionary `session['cart']`: the handlers put in the text of an identifier, and
-- `UserService.change_cart_item_quantity` the identifier. Python tells them apart.
pub data CartKey : Type 0 where
  text_key : Uuid → CartKey
  uuid_key : Uuid → CartKey

-- `request.session`: the entries 'cart' and 'checkout_data', where they are there. The texts that
-- `model_dump_json` writes into 'checkout_data' are held as the items that `model_validate_json`
-- reads back from them.
pub record WebSession : Type 0 where
  pub cart : Option (List (CartKey × ℤ))
  pub checkout_data : Option (List AvailableCheckoutItem)

-- The state of a request: the tables as its database session sees them, `request.session`, the
-- value of `USER_IDENTITY_CTX`, the number of identifiers drawn, and the payments asked of the
-- bank.
pub record World : Type 0 where
  pub db : Db
  pub web : WebSession
  pub user : Option UserIdentity
  pub drawn : ℕ
  pub asked : List InitPaymentRequest

pub data Result {ℓ} (A : Type ℓ) : Type ℓ where
  ok : A → Result A
  err : Exception → Result A

pub Result-cases {ℓ} :
    {A : Type ℓ} (r : Result A) → ((a : A) × (r ≡ ok a)) ⊎ ((e : Exception) × (r ≡ err e))
Result-cases (ok a) = inl (a, refl)
Result-cases (err e) = inr (e, refl)

abbrev pub Action : Type 0 → Type 0 → Type 0
Action S A = S → Result A × S

module _ {S A : Type 0} where
  unfoldable pub pure : A → Action S A
  pure a s = (ok a, s)

  unfoldable pub raise : Exception → Action S A
  raise e s = (err e, s)

  unfoldable pub gets : (S → A) → Action S A
  gets f s = (ok (f s), s)

  unfoldable pub lift : Result A → Action S A
  lift r s = (r, s)

  -- The value of an expression that raises where it is `None`.
  unfoldable pub or_raise : Option A → Exception → Action S A
  or_raise none e s = (err e, s)
  or_raise (some a) e s = (ok a, s)

unfoldable pub modify : {S : Type 0} → (S → S) → Action S (Unit {0})
modify f s = (ok tt, f s)

unfoldable pub raise_if : {S : Type 0} → Bool → Exception → Action S (Unit {0})
raise_if c e s = (if c then err e else ok tt, s)

abbrev pub continue : {S A B : Type 0} → Result A → (A → Action S B) → Action S B
continue (ok a) f s = f a s
continue (err e) f s = (err e, s)

infixl 5 ◌>>=◌ ◌>>◌
-- Opening this opens the actions above too.
unfoldable pub ◌>>=◌ : {S A B : Type 0} → Action S A → (A → Action S B) → Action S B
unfolding pure raise gets lift or_raise modify raise_if
◌>>=◌ m f s = let (r, s') = m s in continue r f s'

abbrev pub ◌>>◌ : {S A B : Type 0} → Action S A → Action S B → Action S B
m >> k = m >>= λ _. k

-- An `InvoiceORM` that is in no session yet.
pub record NewInvoice : Type 0 where
  pub id : Uuid
  pub credit_part_index : Option ℕ
  pub title : String
  pub type : String
  pub amount : ℤ
  pub status : String

-- What the code assigns to the relationships `OrderORM.invoices` and `OrderItemORM.invoices`: the
-- dictionary of an order's invoices, a list of invoices, or `None`.
pub data Assigned : Type 0 where
  a_dict : NewInvoice → List (Uuid × List NewInvoice) → Assigned
  a_list : List NewInvoice → Assigned
  a_none : Assigned

-- The bank's reply to a POST of `/Init`: whether its status code is one of success, the 'ErrorCode'
-- and the 'Details' of its JSON object where they are there, whether that object is not empty, and
-- what `InitPaymentResponse.model_validate` makes of it.
pub record BankReply : Type 0 where
  pub is_success : Bool
  pub is_filled : Bool
  pub error_code : Option String
  pub details : Option String
  pub body : Result InitPaymentResponse

-- What the program calls and does not implement: the identifiers that `uuid4` draws, one after
-- another, the bank's answer to a request, what a list relationship of a table class holds after an
-- assignment, and what pydantic makes of a `CreditPart` where a `CreditPaymentPart` is declared.
pub record Env : Type 0 where
  pub uuid4 : ℕ → Uuid
  pub post_init : InitPaymentRequest → BankReply
  pub assign : Assigned → Result (List NewInvoice)
  pub payment_part : CreditPart → Result CreditPaymentPart

-- The rows of a table, found and changed by a condition or by their identifier.
module _ {A : Type 0} where
  abbrev pub update_where : (A → Bool) → (A → A) → List A → List A
  update_where p f = map (λ row. if p row then f row else row)

  abbrev pub get_by_id : (A → Uuid) → Uuid → List A → Option A
  get_by_id id_of k = find (λ row. id_of row == k)

  abbrev pub update_by_id : (A → Uuid) → Uuid → (A → A) → List A → List A
  update_by_id id_of k = update_where (λ row. id_of row == k)
