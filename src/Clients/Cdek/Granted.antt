-- ===== src/Clients/Cdek/Granted.antt =====
-- What the client of the delivery service makes of an answer to its request for a token.
use fast_api_example.Prelude.{
  ◌+ℤ◌, ◌-ℤ◌, ℤ, pos, Bool-cases, ℕ, suc, String, ◌≡◌, refl, inl, inr, true, some, [], ◌∷◌, ◌++◌,
  arith,
}
use fast_api_example.App.{ok, Result-cases, ◌>>=◌}
use fast_api_example.Clients.Cdek.{
  Calls, Service, TokenReply, oauth_token, set_auth_token, read_token,
}

module _ {Body Json : Type 0} (service : Service Body Json) where
  -- The service's answer to the n-th request grants this token for these seconds.
  abbrev pub Grants : ℕ → String → ℤ → Type 0
  Grants n token seconds =
      (reply : TokenReply) × (service.post_oauth n ≡ ok reply)
      × (reply.is_success ≡ true)
      × (reply.access_token ≡ ok token)
      × (reply.expires_in ≡ ok seconds)

  -- A reply of success with a token says for how long it serves.
  abbrev pub IsComplete : Type 0
  IsComplete =
      (n : ℕ) (reply : TokenReply) (token : String)
      → service.post_oauth n ≡ ok reply
      → reply.is_success ≡ true
      → reply.access_token ≡ ok token
      → (seconds : ℤ) × (reply.expires_in ≡ ok seconds)

  pub set_auth_token_granted :
      (s : Calls Body) (token : String) (seconds : ℤ)
      → Grants s.asked token seconds
      → set_auth_token service s ≡ (
        ok tt,
        record s {
          client = record s.client {
            token = some token;
            token_expires = some (service.clock s.readings +ℤ (seconds -ℤ pos 100));
          };
          sent =
              s.sent ++ oauth_token "client_credentials" s.client.client_id s.client.password ∷ [];
          asked = suc s.asked;
          readings = suc s.readings;
        },
      )
  unfolding set_auth_token ◌>>=◌
  set_auth_token_granted s token seconds (reply, posted, success, access, expires) =
      rw (posted, success, access, expires) refl

  pub set_auth_token_inv :
      IsComplete
      → (s s' : Calls Body) → set_auth_token service s ≡ (ok tt, s')
      → (token : String) × (seconds : ℤ) × Grants s.asked token seconds
  unfolding set_auth_token ◌>>=◌
  set_auth_token_inv complete s s' h = elim (Result-cases (service.post_oauth s.asked)) [
    | inr (e, posted) ↦ absurd (ground arith)
    | inl (reply, posted) ↦ elim (Bool-cases reply.is_success) [
      | inr failed ↦ absurd (ground arith)
      | inl success ↦ elim (Result-cases reply.access_token) [
        | inr (e, access) ↦ absurd (ground arith)
        | inl (token, access) ↦
            (let (seconds, expires) = complete s.asked reply token posted success access in
              (token, seconds, (reply, posted, success, access, expires)))
      ]
    ]
  ]

  -- The state after a new token.
  abbrev pub granted : Calls Body → String → ℤ → Calls Body
  granted s token seconds = record s {
    client = record s.client {
      token = some token;
      token_expires = some (service.clock s.readings +ℤ (seconds -ℤ pos 100));
    };
    sent = s.sent ++ oauth_token "client_credentials" s.client.client_id s.client.password ∷ [];
    asked = suc s.asked;
    readings = suc s.readings;
  }

  pub set_then_read :
      IsComplete
      → (s s' : Calls Body) (token : String)
      → (set_auth_token service >>= λ _. read_token service) s ≡ (ok token, s')
      → (seconds : ℤ) × Grants s.asked token seconds × (s' ≡ granted s token seconds)
  unfolding ◌>>=◌ read_token
  set_then_read complete s s' token h = elim (Result-cases (set_auth_token service s).0) [
    | inr (e, failed) ↦ absurd (ground (arith, failed))
    | inl (done, set) ↦
        (let (t, seconds, grant) =
            set_auth_token_inv complete s (set_auth_token service s).1 (ground (arith, set)) in
          let closed = set_auth_token_granted s t seconds grant in
          let same : t ≡ token = ground (arith, closed) in
          (seconds, rw (← same) grant, ground (arith, closed)))
  ]

  pub set_then_read_granted :
      (s : Calls Body) (token : String) (seconds : ℤ)
      → Grants s.asked token seconds
      → (set_auth_token service >>= λ _. read_token service) s ≡ (ok token, granted s token seconds)
  unfolding ◌>>=◌ read_token
  set_then_read_granted s token seconds grant =
      rw (set_auth_token_granted s token seconds grant) refl
