-- ===== src/Tinkoff/Client.antt =====
-- `TinkoffClient.init_payment` of src/integrations/tinkoff/client.py. The token that the request is
-- signed with is not modelled: it changes nothing that the program reads afterwards.
use fast_api_example.Prelude.{Bool, true, not, ◌&&◌, none, some, [], ◌∷◌, ◌++◌, str_eq}
use fast_api_example.Errors.{
  init_payment as init_payment_error, make_error, raised, http_status_error,
}
use fast_api_example.App.{Env, World, Action, BankReply, lift, modify, raise_if, ◌>>◌}
use fast_api_example.Tinkoff.Models.{InitPaymentRequest, InitPaymentResponse}

-- `response_json.get('ErrorCode') != '0'`
unfoldable pub is_refused : BankReply → Bool
is_refused reply = elim reply.error_code [ none ↦ true | some c ↦ not (str_eq c "0") ]

unfoldable pub init_payment : Env → InitPaymentRequest → Action World InitPaymentResponse
unfolding is_refused make_error
init_payment env request = do
  modify (λ w. record w { asked = w.asked ++ request ∷ [] })
  let reply = env.post_init request
  raise_if (not reply.is_success) http_status_error
  raise_if (reply.is_filled && is_refused reply)
      (raised (make_error init_payment_error reply.details none))
  lift reply.body
