-- ===== src/Transport/Logging.antt =====
-- The log of the requests: src/transport/middlewares/logging_middleware.py.
pub mod Middleware
pub mod Transparent
mod Tests
use fast_api_example.Prelude.{
  if◌then◌else◌, ℕ, String, Bool, true, false, ◌||◌, Option, none, some, List, [], ◌∷◌, ◌++◌, map,
  str_eq,
}
use Prim.Native.Char.{code}
use fast_api_example.Errors.{Exception, attribute_error, status_code}
use fast_api_example.Dict.{put_entries}
use fast_api_example.App.{and_then, Result, ok, err}

-- What `request.json()` returns: an object of JSON, or another value, which counts as true or not.
pub data Json (J : Type 0) : Type 0 where
  object : List (String × J) → Json J
  other_json : Bool → J → Json J

-- An item of a form: a field, or a file with its name as `str` shows it.
pub data FormItem : Type 0 where
  field : String → String → FormItem
  file : String → FormItem

-- A request: its method in upper case, its path, and what its JSON, its parameters, its form and
-- the text of its headers are, or raise.
pub record Request (J : Type 0) : Type 0 where
  pub http_method : String
  pub path : String
  pub json : Result (Json J)
  pub query_params : List (String × String)
  pub form : Result (List FormItem)
  pub headers : Result String

-- A response: its status code, the text of its body, where it has a body and that is a text, and
-- the text of its headers or what that raises.
pub record Response : Type 0 where
  pub status_code : ℕ
  pub body : Option (Result String)
  pub headers : Result String

-- The JSON values of texts and of lists of texts, `orjson`, and the classes of exceptions that the
-- code suppresses: `UnicodeDecodeError`, `RuntimeError` and `JSONDecodeError` for the first, and
-- `UnicodeDecodeError` for the second.
pub record Codec (J : Type 0) : Type 0 where
  pub of_text : String → J
  pub of_names : List String → J
  pub dumps : Json J → Result String
  pub is_suppressed : Exception → Bool
  pub is_unicode_error : Exception → Bool

-- The fields of a form, and the names of its files.
unfoldable pub form_fields : List FormItem → List (String × String)
form_fields [] = []
form_fields (field key value ∷ items) = (key, value) ∷ form_fields items
form_fields (file name ∷ items) = form_fields items

unfoldable pub form_file_names : List FormItem → List String
form_file_names [] = []
form_file_names (field key value ∷ items) = form_file_names items
form_file_names (file name ∷ items) = name ∷ form_file_names items

module _ {J : Type 0} where
  -- `bool(input_data)`
  unfoldable pub is_truthy : Json J → Bool
  is_truthy (object []) = false
  is_truthy (object (entry ∷ entries)) = true
  is_truthy (other_json truthy value) = truthy

  -- `input_data or {}`
  unfoldable pub or_empty : Option (Json J) → Json J
  unfolding is_truthy
  or_empty none = object []
  or_empty (some input) = if is_truthy input then input else object []

  -- `input_data.update(...)`: only a dictionary has this method.
  unfoldable pub update : List (String × J) → Json J → Result (Json J)
  unfolding put_entries
  update more (object entries) = ok (object (put_entries more entries))
  update more (other_json truthy value) = err attribute_error

  -- `if self._request_object.method.upper() not in LOGGING_REQUEST_METHODS_WITHOUT_BODY`
  unfoldable pub read_json : Codec J → Request J → Result (Option (Json J))
  read_json codec request =
      if str_eq request.http_method "GET" || str_eq request.http_method "DELETE"
      then ok none
      else elim request.json [
        | ok input ↦ ok (some input)
        | err e ↦ if codec.is_suppressed e then ok none else err e
      ]

  -- The entries of a dictionary of texts.
  unfoldable pub text_entries : Codec J → List (String × String) → List (String × J)
  text_entries codec = map (λ pair. (pair.0, codec.of_text pair.1))

  -- `if params := self._request_object.query_params`
  unfoldable pub add_params :
      Codec J → List (String × String) → Option (Json J) → Result (Option (Json J))
  unfolding text_entries update or_empty
  add_params codec [] input = ok input
  add_params codec (param ∷ params) input =
      elim (update (text_entries codec (param ∷ params)) (or_empty input)) [
        | ok updated ↦ ok (some updated)
        | err e ↦ err e
      ]

  -- `if form := await self._request_object.form()`
  unfoldable pub add_form : Codec J → List FormItem → Option (Json J) → Result (Option (Json J))
  unfolding text_entries update or_empty form_fields form_file_names
  add_form codec [] input = ok input
  add_form codec (item ∷ items) input =
      let fields = text_entries codec (form_fields (item ∷ items)) in
      let names : String × J = ("files", codec.of_names (form_file_names (item ∷ items))) in
      elim (update (fields ++ names ∷ []) (or_empty input)) [
        | ok updated ↦ ok (some updated)
        | err e ↦ err e
      ]

  -- `return dump_json(input_data) if input_data else None`
  unfoldable pub dump_input : Codec J → Option (Json J) → Result (Option String)
  unfolding is_truthy
  dump_input codec none = ok none
  dump_input codec (some input) =
      if is_truthy input
      then elim (codec.dumps input) [ ok s ↦ ok (some s) | err e ↦ err e ]
      else ok none

  -- `FastAPIRequestWrapper.get_input_data`
  unfoldable pub get_input_data : Codec J → Request J → Result (Option String)
  unfolding read_json add_params add_form dump_input
  get_input_data codec request = and_then (read_json codec request) (λ input.
      and_then (add_params codec request.query_params input) (λ with_params.
        and_then request.form
          (λ items. and_then (add_form codec items with_params) (dump_input codec))))

  -- `FastAPIResponseWrapper.output_data`; the `dump_json` of a text is the text.
  unfoldable pub output_data : Codec J → Response → Result (Option String)
  output_data codec response = elim response.body [
    | none ↦ ok none
    | some (ok s) ↦ ok (some s)
    | some (err e) ↦ (if codec.is_unicode_error e then ok none else err e)
  ]
