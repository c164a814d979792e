-- ===== src/Transport/Notifications/Tests.antt =====
-- Tests of the handler of the bank's notifications, and an instance of the theorem about it.
use fast_api_example.Prelude.{pos, ◌≡◌, refl, ◌⊎◌, true, none, some, [], ◌∷◌}
use fast_api_example.Errors.{Exception, raise_class, unknown_answer}
use fast_api_example.Database.{empty_db}
use fast_api_example.App.{World, ok, err, ◌>>=◌}
use fast_api_example.Tinkoff.{PaymentStatusNotification}
use fast_api_example.Tinkoff.Token.{text_value, verify}
use fast_api_example.Order.Payment.{update_payment_status}
use fast_api_example.Transport.Notifications.{
  Signing, notification_handler, IsGenuine, notification_handler-IsGenuine,
}

-- A hash that changes nothing, and a dump of the payment's number only.
abbrev signing : Signing
signing = record {
  hash = λ s. s;
  password = "secret";
  dump = λ notification. ("PaymentId", text_value "77") ∷ [];
}

abbrev paid : PaymentStatusNotification
paid = record {
  token = some "secret77";
  amount = pos 10000;
  card_id = pos 5;
  error_code = "0";
  exp_date = "1230";
  invoice_id = 2;
  pan = "*";
  payment_id = pos 77;
  status = "CONFIRMED";
  success = true;
}

abbrev empty_world : World
empty_world = record {
  db = empty_db;
  web = record { cart = none; checkout_data = none };
  user = none;
  drawn = 0;
  asked = [];
}

notification_handler-IsGenuine_example :
    (IsGenuine signing paid
      × ((notification_handler signing paid empty_world).1
          ≡ (update_payment_status paid empty_world).1))
    ⊎ ((e : Exception) × (notification_handler signing paid empty_world ≡ (err e, empty_world)))
notification_handler-IsGenuine_example = notification_handler-IsGenuine signing paid empty_world

paid_verified : verify signing.hash signing.password (signing.dump paid) paid.token ≡ ok true
unfolding verify
paid_verified = refl

forged_refused :
    notification_handler signing (record paid { token = some "guess" }) empty_world
    ≡ (err (raise_class unknown_answer), empty_world)
unfolding notification_handler ◌>>=◌
forged_refused = refl
