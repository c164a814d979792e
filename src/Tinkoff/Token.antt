-- ===== src/Tinkoff/Token.antt =====
-- The token that signs the bank's messages: `generate_token` and `verify` of
-- src/integrations/tinkoff/models.py. `hash_string` of src/integrations/tinkoff/utils.py calls a
-- hash of the standard library, which is the parameter `hash`.
pub mod Order
use Prim.Native.Char.{code}
use fast_api_example.Prelude.{
  ltb, if◌then◌else◌, String, str_append, Bool, true, false, ◌&&◌, Option, none, some, List, [],
  ◌∷◌, str_eq,
}
use fast_api_example.Errors.{type_error}
use fast_api_example.App.{Result, ok, err}
use fast_api_example.Dict.{put_entry}
use fast_api_example.Sorting.{sorted_by}

-- A value of `model_dump`: a text or the text of a number, a truth value, or a dictionary or a
-- list.
pub data Value : Type 0 where
  text_value : String → Value
  bool_value : Bool → Value
  nested : Value

-- `str(value).lower() if isinstance(value, bool) else str(value)`, where the value is not nested.
unfoldable pub converted_value : Value → Option String
converted_value (text_value s) = some s
converted_value (bool_value true) = some "true"
converted_value (bool_value false) = some "false"
converted_value nested = none

-- The loop over `data.items()`; the keys of a dump are different.
unfoldable pub token_data : List (String × Value) → List (String × String)
unfolding converted_value
token_data [] = []
token_data ((key, value) ∷ entries) = elim (converted_value value) [
  | none ↦ token_data entries
  | some s ↦ (key, s) ∷ token_data entries
]

-- `''.join(str(i[1]) for i in token_data)`
unfoldable pub join_values : List (String × String) → String
join_values [] = ""
join_values ((key, value) ∷ entries) = str_append value (join_values entries)

-- The key that an entry is sorted by.
abbrev pub entry_key : String × String → String
entry_key entry = entry.0

-- `generate_token`, of what `model_dump` makes of the message without its token.
unfoldable pub generate_token : (String → String) → String → List (String × Value) → String
unfolding token_data join_values put_entry sorted_by
generate_token hash password dump =
    hash (join_values (sorted_by entry_key (put_entry "Password" password (token_data dump))))

-- The characters of a text are ASCII, as `hmac.compare_digest` wants of texts.
unfoldable pub is_ascii : String → Bool
is_ascii String.[] = true
is_ascii (String.◌∷◌ c s) = ltb (code c) 128 && is_ascii s

-- `hmac.compare_digest(a, b)`, where the first is `self.token`.
unfoldable pub compare_digest : Option String → String → Result Bool
unfolding is_ascii
compare_digest none b = err type_error
compare_digest (some a) b = if is_ascii a && is_ascii b then ok (str_eq a b) else err type_error

-- `PaymentStatusNotification.verify`
unfoldable pub verify :
    (String → String) → String → List (String × Value) → Option String → Result Bool
unfolding compare_digest generate_token
verify hash password dump token = compare_digest token (generate_token hash password dump)
