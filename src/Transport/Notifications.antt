-- ===== src/Transport/Notifications.antt =====
-- The notifications of the bank: src/transport/handlers/internal/notifications/entrypoints.py.
mod Tests
use fast_api_example.Prelude.{
  Bool-cases, String, ◌≡◌, refl, ap, ◌⊎◌, inl, inr, true, false, not, ◌&&◌, Option, none, some,
  List, str_eq, eq_iff,
}
use fast_api_example.Errors.{Exception, type_error, raise_class, unknown_answer, key_error}
use fast_api_example.App.{
  World, Action, ok, err, Result-cases, lift, raise, raise_if, pure, gets, UserIdentity, ◌>>=◌,
  ◌>>◌,
}
use fast_api_example.Tinkoff.{PaymentStatusNotification}
use fast_api_example.Tinkoff.Token.{Value, verify, generate_token, compare_digest, is_ascii}
use fast_api_example.Order.Payment.{update_payment_status}

-- What the handler calls and is no code of the repository: the hash, the setting `password`, and
-- what `model_dump` makes of a notification without its token.
pub record Signing : Type 0 where
  pub hash : String → String
  pub password : String
  pub dump : PaymentStatusNotification → List (String × Value)

-- `notification_handler`
unfoldable pub notification_handler : Signing → PaymentStatusNotification → Action World String
unfolding verify ◌>>=◌
notification_handler signing notification = do
  is_verified ←
      lift (verify signing.hash signing.password (signing.dump notification) notification.token)
  raise_if (not is_verified) (raise_class unknown_answer)
  update_payment_status notification
  pure "OK"

-- `get_current_user_her`, after `get_current_user`
unfoldable pub get_current_user_her : Action World (Option UserIdentity)
get_current_user_her = gets (λ w. w.user)

-- `get_current_user_err`
unfoldable pub get_current_user_err : {A : Type 0} → Action World A
get_current_user_err = raise key_error

-- The token of a notification is the one that its other fields and the password make.
abbrev pub IsGenuine : Signing → PaymentStatusNotification → Type 0
IsGenuine signing notification =
    notification.token
    ≡ some (generate_token signing.hash signing.password (signing.dump notification))

compare_digest_cases :
    (token : Option String) (b : String)
    → ((token ≡ some b) × (compare_digest token b ≡ ok true))
      ⊎ (compare_digest token b ≡ ok false)
      ⊎ ((e : Exception) × (compare_digest token b ≡ err e))
unfolding compare_digest
compare_digest_cases none b = inr (inr (type_error, refl))
compare_digest_cases (some a) b = elim (Bool-cases (is_ascii a && is_ascii b)) [
  | inr foreign ↦ rw foreign (inr (inr (type_error, refl)))
  | inl ascii ↦ rw ascii (elim (Bool-cases (str_eq a b)) [
    | inl same ↦ rw same (inl (ap some ((eq_iff a b).0 same), refl))
    | inr other ↦ rw other (inr (inl refl))
  ])
]

handler_verified :
    (signing : Signing) (n : PaymentStatusNotification) (w : World)
    → compare_digest n.token (generate_token signing.hash signing.password (signing.dump n))
      ≡ ok true
    → (notification_handler signing n w).1 ≡ (update_payment_status n w).1
unfolding notification_handler ◌>>=◌
handler_verified signing n w h = rw h (elim (Result-cases (update_payment_status n w).0) [
  | inl (done, updated) ↦ rw updated refl
  | inr (e, raised) ↦ rw raised refl
])

handler_unverified :
    (signing : Signing) (n : PaymentStatusNotification) (w : World)
    → compare_digest n.token (generate_token signing.hash signing.password (signing.dump n))
      ≡ ok false
    → notification_handler signing n w ≡ (err (raise_class unknown_answer), w)
unfolding notification_handler ◌>>=◌
handler_unverified signing n w h = rw h refl

handler_refused :
    (signing : Signing) (n : PaymentStatusNotification) (w : World) (e : Exception)
    → compare_digest n.token (generate_token signing.hash signing.password (signing.dump n)) ≡ err e
    → notification_handler signing n w ≡ (err e, w)
unfolding notification_handler ◌>>=◌
handler_refused signing n w e h = rw h refl

-- A notification changes something, or is answered, only if its token is the one that its other
-- fields and the password make; then the state is what update_payment_status leaves. Any other
-- notification is refused by an exception, and changes nothing.
pub notification_handler-IsGenuine :
    (signing : Signing) (notification : PaymentStatusNotification) (w : World)
    → (IsGenuine signing notification
        × ((notification_handler signing notification w).1
            ≡ (update_payment_status notification w).1))
      ⊎ ((e : Exception) × (notification_handler signing notification w ≡ (err e, w)))
notification_handler-IsGenuine signing n w =
    elim (compare_digest_cases n.token
      (generate_token signing.hash signing.password (signing.dump n))) [
        | inl (genuine, verified) ↦ inl (genuine, handler_verified signing n w verified)
        | inr (inl other) ↦ inr (raise_class unknown_answer, handler_unverified signing n w other)
        | inr (inr (e, refused)) ↦ inr (e, handler_refused signing n w e refused)
      ]
