-- ===== src/Dict.antt =====
-- Python's dictionaries with texts as keys: lists of entries, in the order of their insertion.
use fast_api_example.Prelude.{if◌then◌else◌, String, List, [], ◌∷◌, str_eq}

module _ {V : Type 0} where
  -- `entries[key] = value`
  unfoldable pub put_entry : String → V → List (String × V) → List (String × V)
  put_entry key value [] = (key, value) ∷ []
  put_entry key value ((k, v) ∷ entries) =
      if str_eq k key then (k, value) ∷ entries else (k, v) ∷ put_entry key value entries

  -- `entries.update(more)`
  unfoldable pub put_entries : List (String × V) → List (String × V) → List (String × V)
  unfolding put_entry
  put_entries [] entries = entries
  put_entries ((key, value) ∷ more) entries = put_entries more (put_entry key value entries)
