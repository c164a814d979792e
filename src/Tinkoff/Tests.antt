-- ===== src/Tinkoff/Tests.antt =====
-- Tests of the token of the bank's messages, and an instance of the theorem about it.
use fast_api_example.Prelude.{String, ◌≡◌, refl, ◌≢◌, true, none, [], ◌∷◌, arith, eq_iff}
use fast_api_example.Errors.{type_error}
use fast_api_example.App.{err}
use fast_api_example.Tinkoff.Token.{text_value, bool_value, nested, generate_token, verify}
use fast_api_example.Tinkoff.Token.Order.{generate_token-swap}

-- A hash that changes nothing shows what is hashed.
abbrev plain : String → String
plain s = s

amount_ne_order_id : ◌≢◌ {A = String} "Amount" "OrderId"
amount_ne_order_id h = ground (arith, eq_iff "Amount" "OrderId")

generate_token-swap_example :
    generate_token plain "secret" (
      ("Success", bool_value true) ∷ ("Amount", text_value "5") ∷ ("OrderId", text_value "21") ∷ [])
    ≡ generate_token plain "secret" (
        ("Success", bool_value true)
        ∷ ("OrderId", text_value "21")
        ∷ ("Amount", text_value "5")
        ∷ [])
generate_token-swap_example =
    generate_token-swap plain "secret" (("Success", bool_value true) ∷ []) "Amount" "OrderId"
      (text_value "5") (text_value "21") [] amount_ne_order_id

-- Amount, OrderId, Password and Success; the nested DATA is left out.
token_text :
    generate_token plain "secret" (
      ("Success", bool_value true)
      ∷ ("DATA", nested)
      ∷ ("OrderId", text_value "21")
      ∷ ("Amount", text_value "5")
      ∷ [])
    ≡ "521secrettrue"
unfolding generate_token
token_text = refl

no_token_raises : verify plain "secret" [] none ≡ err type_error
unfolding verify
no_token_raises = refl
