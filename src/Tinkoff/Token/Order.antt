-- ===== src/Tinkoff/Token/Order.antt =====
-- The token does not depend on the order of the fields of a message.
use fast_api_example.Prelude.{
  Bool-cases, String, ◌≡◌, refl, sym, ap, ◌∙◌, ◌≢◌, inl, inr, true, false, Option, none, some, List,
  [], ◌∷◌, ◌++◌, arith, str_eq, eq_iff,
}
use fast_api_example.Dict.{put_entry}
use fast_api_example.Sorting.{sorted_by}
use fast_api_example.Sorting.Swapped.{sorted_by-swap}
use fast_api_example.Tinkoff.Token.{
  Value, converted_value, token_data, join_values, entry_key, generate_token,
}

token_data-append :
    (xs ys : List (String × Value)) → token_data (xs ++ ys) ≡ token_data xs ++ token_data ys
unfolding token_data
token_data-append [] ys = refl
token_data-append ((key, value) ∷ xs) ys = ground (arith, token_data-append xs ys)

abbrev Entries : Type 0
Entries = List (String × String)

-- The two lists are the same but for two neighbours with different keys.
abbrev IsSwapped : Entries → Entries → Type 0
IsSwapped l m =
    (xs : Entries) × (x : String × String) × (y : String × String) × (ys : Entries) × (x.0 ≢ y.0)
    × (l ≡ xs ++ (x ∷ y ∷ ys))
    × (m ≡ xs ++ (y ∷ x ∷ ys))

IsSwapped-cons : (e : String × String) (l m : Entries) → IsSwapped l m → IsSwapped (e ∷ l) (e ∷ m)
IsSwapped-cons e l m (xs, x, y, ys, ne, left, right) =
    (e ∷ xs, x, y, ys, ne, ap (λ t. e ∷ t) left, ap (λ t. e ∷ t) right)

not_both : (a b k : String) → a ≢ b → str_eq a k ≡ true → str_eq b k ≡ false
not_both a b k ne h = ground (arith, eq_iff a k, eq_iff b k)

put_entry-IsSwapped :
    (k v : String) (xs : Entries) (x y : String × String) (ys : Entries)
    → x.0 ≢ y.0
    → IsSwapped (put_entry k v (xs ++ (x ∷ y ∷ ys))) (put_entry k v (xs ++ (y ∷ x ∷ ys)))
unfolding put_entry
put_entry-IsSwapped k v [] (a, p) (b, q) ys ne = elim (Bool-cases (str_eq a k)) [
  | inl first ↦ rw (first, not_both a b k ne first) ([], (a, v), (b, q), ys, ne, refl, refl)
  | inr other ↦ rw other (elim (Bool-cases (str_eq b k)) [
    | inl second ↦ rw second ([], (a, p), (b, v), ys, ne, refl, refl)
    | inr neither ↦ rw neither ([], (a, p), (b, q), put_entry k v ys, ne, refl, refl)
  ])
]
put_entry-IsSwapped k v ((j, w) ∷ xs) x y ys ne = elim (Bool-cases (str_eq j k)) [
  | inl here ↦ rw here ((j, v) ∷ xs, x, y, ys, ne, refl, refl)
  | inr there ↦ rw there (IsSwapped-cons (j, w) _ _ (put_entry-IsSwapped k v xs x y ys ne))
]

sorted-IsSwapped : (l m : Entries) → IsSwapped l m → sorted_by entry_key l ≡ sorted_by entry_key m
sorted-IsSwapped l m (xs, x, y, ys, ne, left, right) =
    ap (sorted_by entry_key) left
    ∙ (sorted_by-swap entry_key xs x y ys ne ∙ sym (ap (sorted_by entry_key) right))

-- An entry of the dump before the data of the token that follow it.
with_entry : Option String → String → Entries → Entries
with_entry none key entries = entries
with_entry (some s) key entries = (key, s) ∷ entries

token_data-cons :
    (key : String) (value : Value) (entries : List (String × Value))
    → token_data ((key, value) ∷ entries)
      ≡ with_entry (converted_value value) key (token_data entries)
unfolding token_data with_entry
token_data-cons key value entries = ground arith

-- Two neighbours of a dump, as they stand in the data of the token.
put_pair :
    (k v : String) (xs : Entries) (a b : String) (p q : Option String) (ys : Entries)
    → a ≢ b
    → sorted_by entry_key (put_entry k v (xs ++ with_entry p a (with_entry q b ys)))
      ≡ sorted_by entry_key (put_entry k v (xs ++ with_entry q b (with_entry p a ys)))
unfolding with_entry
put_pair k v xs a b none q ys ne = refl
put_pair k v xs a b (some s) none ys ne = refl
put_pair k v xs a b (some s) (some t) ys ne =
    sorted-IsSwapped _ _ (put_entry-IsSwapped k v xs (a, s) (b, t) ys ne)

-- The token of a message does not depend on the order of its fields: two neighbouring fields with
-- different names may change places, wherever they stand, also beside a nested field and beside
-- a field that is named like the password.
pub generate_token-swap :
    (hash : String → String) (password : String) (xs : List (String × Value)) (a b : String)
    (p q : Value) (ys : List (String × Value))
    → a ≢ b
    → generate_token hash password (xs ++ ((a, p) ∷ (b, q) ∷ ys))
      ≡ generate_token hash password (xs ++ ((b, q) ∷ (a, p) ∷ ys))
unfolding generate_token
generate_token-swap hash password xs a b p q ys ne =
    ap (λ l. hash (join_values l))
      (rw
        (
          token_data-append xs ((a, p) ∷ (b, q) ∷ ys),
          token_data-append xs ((b, q) ∷ (a, p) ∷ ys),
          token_data-cons a p ((b, q) ∷ ys),
          token_data-cons b q ((a, p) ∷ ys),
          token_data-cons b q ys,
          token_data-cons a p ys,
        )
        (put_pair "Password" password (token_data xs) a b (converted_value p) (converted_value q)
          (token_data ys) ne))
