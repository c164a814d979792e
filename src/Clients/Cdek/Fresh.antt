-- ===== src/Clients/Cdek/Fresh.antt =====
-- The tokens that the client of the delivery service sends: where they come from, and when a new
-- one is asked for.
use fast_api_example.Prelude.{
  ◌+ℤ◌, ◌-ℤ◌, ℤ, pos, ltb_ℤ, Bool-cases, Option-cases, ℕ, suc, ◌<◌, String, ◌≡◌, refl, sym, ◌∙◌,
  ◌⊎◌, inl, inr, true, some, [], ◌∷◌, ◌++◌, arith,
}
use fast_api_example.App.{ok, ◌>>=◌}
use fast_api_example.Clients.Cdek.{
  Calls, Service, oauth_token, get_token, set_auth_token, read_token,
}
use fast_api_example.Clients.Cdek.Granted.{Grants, IsComplete, set_then_read, set_then_read_granted}
use fast_api_example.Clients.Cdek.Kept.{
  IsKept, read_once, get_token_cached, get_token_asked, get_token_first,
}

module _ {Body Json : Type 0} (service : Service Body Json) where
  -- The held token was found in time: the clock has not reached the moment that is a hundred
  -- seconds before its time is over.
  abbrev pub IsFound : Calls Body → String → Calls Body → Type 0
  IsFound s token s' =
      (seconds : ℤ) × (n : ℕ) × (reading : ℕ) × Grants service n token seconds
      × (n < s.asked)
      × (reading < s.readings)
      × (ltb_ℤ (service.clock s.readings) (service.clock reading +ℤ (seconds -ℤ pos 100)) ≡ true)
      × (s' ≡ read_once service s)

  -- The token is new: one request was sent, and the service granted it.
  abbrev pub IsNew : Calls Body → String → Calls Body → Type 0
  IsNew s token s' =
      (seconds : ℤ) × Grants service s.asked token seconds
      × (s'.client.token ≡ some token)
      × (s'.asked ≡ suc s.asked)
      × (s'.sent
          ≡ s.sent ++ oauth_token "client_credentials" s.client.client_id s.client.password ∷ [])

  -- A call of get_token that returns gives either the token that the client holds, which an
  -- earlier answer granted, whose time is not over by a hundred seconds, and then nothing is sent;
  -- or a new token, for one request.
  pub get_token_fresh :
      IsComplete service
      → (s s' : Calls Body) (token : String) → IsKept service s
      → get_token service s ≡ (ok token, s')
      → IsFound s token s' ⊎ IsNew s token s'
  get_token_fresh complete s s' token kept h = elim (Option-cases s.client.token_expires) [
    | inl first ↦
        (let (seconds, grant, after) =
            set_then_read service complete s s' token (sym (get_token_first service s first) ∙ h) in
          inr (seconds, grant, rw after refl, rw after refl, rw after refl))
    | inr (moment, expires) ↦ elim (Bool-cases (ltb_ℤ (service.clock s.readings) moment)) [
      | inr late ↦
          (let (seconds, grant, after) =
              set_then_read service complete (read_once service s) s' token
                (sym (get_token_asked service s moment expires late) ∙ h) in
            inr (seconds, grant, rw after refl, rw after refl, rw after refl))
      | inl early ↦
          (let (held_token, seconds, n, reading, held, grant, before, read, moment_eq) =
              kept moment expires in
            let closed = get_token_cached service s held_token moment expires held early in
            let same : held_token ≡ token = ground (arith, closed) in
            inl (
              seconds,
              n,
              reading,
              rw (← same) grant,
              before,
              read,
              rw (← moment_eq) early,
              ground (arith, closed),
            ))
    ]
  ]

  -- A service that grants a token on every request.
  abbrev pub IsGranting : Type 0
  IsGranting = (n : ℕ) → (token : String) × (seconds : ℤ) × Grants service n token seconds

  asked_returns :
      IsGranting
      → (s : Calls Body)
      → (token : String) × (((set_auth_token service >>= λ _. read_token service) s).0 ≡ ok token)
  asked_returns grants s =
      let (token, seconds, grant) = grants s.asked in
      (token, rw (set_then_read_granted service s token seconds grant) refl)

  -- Where the service grants a token on every request, every call of get_token returns one.
  pub get_token_returns :
      IsGranting
      → (s : Calls Body) → IsKept service s
      → (token : String) × ((get_token service s).0 ≡ ok token)
  get_token_returns grants s kept = elim (Option-cases s.client.token_expires) [
    | inl first ↦ rw (get_token_first service s first) (asked_returns grants s)
    | inr (moment, expires) ↦ elim (Bool-cases (ltb_ℤ (service.clock s.readings) moment)) [
      | inr late ↦
          rw (get_token_asked service s moment expires late)
            (asked_returns grants (read_once service s))
      | inl early ↦
          (let token = (kept moment expires).0 in
            (
              token,
              rw (get_token_cached service s token moment expires (kept moment expires).4 early)
                  refl,
            ))
    ]
  ]
