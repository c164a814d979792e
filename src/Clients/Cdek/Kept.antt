-- ===== src/Clients/Cdek/Kept.antt =====
-- The token that the client keeps comes from the service, with the moment at which it expires.
use fast_api_example.Prelude.{
  ◌+ℤ◌, ◌-ℤ◌, ℤ, pos, ltb_ℤ, Bool-cases, Option-cases, ℕ, suc, ◌≤◌, ◌<◌, String, ◌≡◌, refl, ◌⊎◌,
  inl, inr, true, false, none, some, [], ◌∷◌, ◌++◌, arith,
}
use fast_api_example.App.{ok, Result-cases, ◌>>=◌}
use fast_api_example.Clients.Cdek.{
  Calls, Service, Sent, oauth_token, get_token, set_auth_token, is_token_valid, read_token, now,
}
use fast_api_example.Clients.Cdek.Granted.{Grants, IsComplete, granted, set_auth_token_granted}

module _ {Body Json : Type 0} (service : Service Body Json) where
  -- The token that the client holds, where it has a moment at which it expires, was granted by an
  -- earlier answer, and that moment is a hundred seconds before its time is over.
  abbrev pub IsKept : Calls Body → Type 0
  IsKept s =
      (moment : ℤ)
      → s.client.token_expires ≡ some moment
      → (token : String) × (seconds : ℤ) × (n : ℕ) × (reading : ℕ) × (s.client.token ≡ some token)
        × Grants service n token seconds
        × (n < s.asked)
        × (reading < s.readings)
        × (moment ≡ service.clock reading +ℤ (seconds -ℤ pos 100))

  -- The state after a call that found the token in time.
  abbrev pub read_once : Calls Body → Calls Body
  read_once s = record s { readings = suc s.readings }

  pub get_token_cached :
      (s : Calls Body) (token : String) (moment : ℤ)
      → s.client.token_expires ≡ some moment
      → s.client.token ≡ some token
      → ltb_ℤ (service.clock s.readings) moment ≡ true
      → get_token service s ≡ (ok token, read_once s)
  unfolding get_token ◌>>=◌ is_token_valid now read_token
  get_token_cached s token moment expires held early = rw (expires, early, held) refl

  pub get_token_asked :
      (s : Calls Body) (moment : ℤ)
      → s.client.token_expires ≡ some moment
      → ltb_ℤ (service.clock s.readings) moment ≡ false
      → get_token service s ≡ (set_auth_token service >>= λ _. read_token service) (read_once s)
  unfolding get_token ◌>>=◌ is_token_valid now
  get_token_asked s moment expires late = rw (expires, late) refl

  pub get_token_first :
      (s : Calls Body)
      → s.client.token_expires ≡ none
      → get_token service s ≡ (set_auth_token service >>= λ _. read_token service) s
  unfolding get_token ◌>>=◌ is_token_valid now
  get_token_first s expires = rw (expires) refl

  pub granted-IsKept :
      (s : Calls Body) (token : String) (seconds : ℤ)
      → Grants service s.asked token seconds
      → IsKept (granted service s token seconds)
  granted-IsKept s token seconds grant moment e =
      (token, seconds, s.asked, s.readings, refl, grant, omega arith, omega arith, ground arith)

  pub IsKept-mono :
      (s s' : Calls Body)
      → s'.client ≡ s.client
      → s.asked ≤ s'.asked
      → s.readings ≤ s'.readings
      → IsKept s
      → IsKept s'
  IsKept-mono s s' same asked readings kept moment e =
      let (token, seconds, n, reading, held, grant, before, read, moment_eq) =
        kept moment (ground (arith, same)) in
      (token, seconds, n, reading, rw same held, grant, omega arith, omega arith, moment_eq)

  -- The state after a request for a token, whatever comes back.
  abbrev asked_once : Calls Body → Calls Body
  asked_once s = record s {
    sent = s.sent ++ oauth_token "client_credentials" s.client.client_id s.client.password ∷ [];
    asked = suc s.asked;
  }

  asked_once-IsKept : (s : Calls Body) → IsKept s → IsKept (asked_once s)
  asked_once-IsKept s = IsKept-mono s (asked_once s) refl (omega arith) (omega arith)

  set_auth_token-IsKept :
      IsComplete service → (s : Calls Body) → IsKept s → IsKept (set_auth_token service s).1
  unfolding set_auth_token ◌>>=◌
  set_auth_token-IsKept complete s kept = elim (Result-cases (service.post_oauth s.asked)) [
    | inr (e, posted) ↦ rw posted (asked_once-IsKept s kept)
    | inl (reply, posted) ↦ elim (Bool-cases reply.is_success) [
      | inr failed ↦ rw (posted, failed) (asked_once-IsKept s kept)
      | inl success ↦ elim (Result-cases reply.access_token) [
        | inr (e, access) ↦ rw (posted, success, access) (asked_once-IsKept s kept)
        | inl (token, access) ↦
            (let (seconds, expires) = complete s.asked reply token posted success access in
              let grant : Grants service s.asked token seconds =
                (reply, posted, success, access, expires) in
              rw (set_auth_token_granted service s token seconds grant)
                (granted-IsKept s token seconds grant))
      ]
    ]
  ]

  read_token-state : (s : Calls Body) → (read_token service s).1 ≡ s
  unfolding read_token ◌>>=◌
  read_token-state s = ground arith

  set_then_read-IsKept :
      IsComplete service
      → (s : Calls Body) → IsKept s
      → IsKept ((set_auth_token service >>= λ _. read_token service) s).1
  unfolding ◌>>=◌
  set_then_read-IsKept complete s kept = elim (Result-cases (set_auth_token service s).0) [
    | inr (e, failed) ↦ rw failed (set_auth_token-IsKept complete s kept)
    | inl (done, set) ↦
        rw (set, read_token-state (set_auth_token service s).1)
          (set_auth_token-IsKept complete s kept)
  ]

  pub read_once-IsKept : (s : Calls Body) → IsKept s → IsKept (read_once s)
  read_once-IsKept s = IsKept-mono s (read_once s) refl (omega arith) (omega arith)

  pub get_token-IsKept :
      IsComplete service → (s : Calls Body) → IsKept s → IsKept (get_token service s).1
  get_token-IsKept complete s kept = elim (Option-cases s.client.token_expires) [
    | inl first ↦ rw (get_token_first s first) (set_then_read-IsKept complete s kept)
    | inr (moment, expires) ↦ elim (Bool-cases (ltb_ℤ (service.clock s.readings) moment)) [
      | inr late ↦
          rw (get_token_asked s moment expires late)
            (set_then_read-IsKept complete (read_once s) (read_once-IsKept s kept))
      | inl early ↦
          rw
            (get_token_cached s (kept moment expires).0 moment expires (kept moment expires).4
              early)
            (read_once-IsKept s kept)
    ]
  ]

  abbrev pub ask_of : Calls Body → Sent Body
  ask_of s = oauth_token "client_credentials" s.client.client_id s.client.password

  set_then_read-sent :
      (s : Calls Body)
      → ((set_auth_token service >>= λ _. read_token service) s).1.sent ≡ s.sent ++ ask_of s ∷ []
  unfolding set_auth_token read_token ◌>>=◌
  set_then_read-sent s = ground arith

  -- A call of `get_token` sends one request at most.
  pub get_token-sent :
      (s : Calls Body)
      → ((get_token service s).1.sent ≡ s.sent)
        ⊎ ((get_token service s).1.sent ≡ s.sent ++ ask_of s ∷ [])
  unfolding get_token is_token_valid now read_token ◌>>=◌
  get_token-sent s = ground (arith, set_then_read-sent s, set_then_read-sent (read_once s))
