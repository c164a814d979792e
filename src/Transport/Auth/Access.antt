-- ===== src/Transport/Auth/Access.antt =====
-- What the checks of src/transport/depends/auth.py let through.
use mathlib.Core.Path.{subst⁻¹}
use fast_api_example.Prelude.{
  Bool-cases, Option-cases, Member, any, List, ◌∷◌, String, ◌≡◌, refl, sym, ap, ◌∙◌, ◌↔◌, inl, inr,
  Bool, true, false, Option, none, some, [], arith, str_eq, eq_iff,
}
use fast_api_example.App.{World, UserIdentity, Result, Result-cases, ok, err, ◌>>=◌}
use fast_api_example.Transport.Auth.{
  KratosSession, WhoAmI, get_session, identity_of, get_current_user, check_customer_access,
  check_admin_access,
}

admin_ok :
    (admin_schema : String) (user : UserIdentity)
    → user.verified ≡ true
    → str_eq user.schema_id admin_schema ≡ true
    → check_admin_access admin_schema (some user) ≡ ok user
unfolding check_admin_access check_customer_access
admin_ok admin_schema user h e = rw (h, e) refl

admin_only :
    (admin_schema : String) (u user : UserIdentity)
    → check_admin_access admin_schema (some u) ≡ ok user
    → (u ≡ user) × (u.verified ≡ true) × (str_eq u.schema_id admin_schema ≡ true)
unfolding check_admin_access check_customer_access
admin_only admin_schema u user h = elim (Bool-cases u.verified) [
  | inr fails ↦ absurd (ground arith)
  | inl holds ↦ (elim (Bool-cases (str_eq u.schema_id admin_schema)) [
    | inr other ↦ absurd (ground arith)
    | inl same ↦ (ground arith, holds, same)
  ])
]

ok_of :
    (u user : UserIdentity) → some u ≡ some user → ◌≡◌ {A = Result UserIdentity} (ok u) (ok user)
ok_of u user h = ground arith

get_session-some :
    (response : WhoAmI) (session : KratosSession)
    → get_session response ≡ some session
    → (response.is_success ≡ true) × (response.json ≡ some session)
unfolding get_session
get_session-some response session h = elim (Bool-cases response.is_success) [
  | inl holds ↦ (holds, ground arith)
  | inr fails ↦ absurd (ground arith)
]

-- `check_admin_access` lets a user through exactly if somebody is signed in, with a verified
-- address and the schema of the administrators, and that user is the one it passes on.
pub check_admin_access_iff :
    (admin_schema : String) (identity : Option UserIdentity) (user : UserIdentity)
    → (check_admin_access admin_schema identity ≡ ok user)
      ↔ ((identity ≡ some user) × (user.verified ≡ true) × (user.schema_id ≡ admin_schema))
unfolding check_admin_access check_customer_access
check_admin_access_iff admin_schema none user =
    ((λ h. absurd (ground arith)), (λ h. absurd (ground (arith, h.0))))
check_admin_access_iff admin_schema (some u) user = (
  (λ h.
      (let (same, verified, schema) = admin_only admin_schema u user h in
        (
          ap (λ x. some x) same,
          sym (ap (λ x. x.verified) same) ∙ verified,
          sym (ap (λ x. x.schema_id) same) ∙ (eq_iff u.schema_id admin_schema).0 schema,
        ))),
  (λ h.
      subst⁻¹ (λ x. check_admin_access admin_schema x ≡ ok user) h.0
        (admin_ok admin_schema user h.1 ((eq_iff user.schema_id admin_schema).1 h.2))),
)

-- The identity has the fields of the session, and is verified exactly if one of the addresses is.
abbrev pub IsIdentity : KratosSession → UserIdentity → Type 0
IsIdentity session identity =
    (identity.id ≡ session.id)
    × (identity.schema_id ≡ session.schema_id)
    × (identity.state ≡ session.state)
    × (identity.email ≡ session.email)
    × (identity.first_name ≡ session.first_name)
    × (identity.last_name ≡ session.last_name)
    × (identity.phone ≡ session.phone)
    × (identity.metadata_public ≡ session.metadata_public)
    × ((identity.verified ≡ true) ↔ Member true session.addresses_verified)

any-Member : (flags : List Bool) → (any (λ flag. flag) flags ≡ true) ↔ Member true flags
any-Member [] = ((λ h. absurd (ground arith)), (λ m. absurd m))
any-Member (true ∷ flags) = ((λ h. inl refl), (λ m. refl))
any-Member (false ∷ flags) = (
  (λ h. inr ((any-Member flags).0 h)),
  (λ m. elim m [ inl e ↦ absurd (ground (arith, e)) | inr there ↦ (any-Member flags).1 there ]),
)

identity_of-IsIdentity : (session : KratosSession) → IsIdentity session (identity_of session)
unfolding identity_of
identity_of-IsIdentity session =
    (refl, refl, refl, refl, refl, refl, refl, refl, any-Member session.addresses_verified)

-- Somebody who is signed in after `get_current_user` holds the cookie of a session that the
-- identity provider answered for, and is the user of this session; the session cart is then empty,
-- and nothing but the user and the cart is changed. The identity that pydantic reads the user from
-- has the fields of the session, and is verified exactly if one of its addresses is.
pub get_current_user-signed_in :
    (validated : UserIdentity → Result UserIdentity) (has_cookie : Bool) (reply : Result WhoAmI)
    (w w' : World) (user : UserIdentity)
    → get_current_user validated has_cookie reply w ≡ (ok (some user), w')
    → (has_cookie ≡ true)
      × ((response : WhoAmI) × (session : KratosSession) × (reply ≡ ok response)
          × (response.is_success ≡ true)
          × (response.json ≡ some session)
          × ((identity : UserIdentity) × IsIdentity session identity
              × (validated identity ≡ ok user)))
      × (w' ≡ record w { user = some user; web = record w.web { cart = some [] } })
unfolding get_current_user ◌>>=◌
get_current_user-signed_in validated false reply w w' user h = absurd (ground arith)
get_current_user-signed_in validated true (err e) w w' user h = absurd (ground arith)
get_current_user-signed_in validated true (ok response) w w' user h =
    elim (Option-cases (get_session response)) [
      | inl e ↦ absurd (ground arith)
      | inr (session, e) ↦ (elim (Result-cases (validated (identity_of session))) [
        | inr (x, bad) ↦ absurd (ground arith)
        | inl (u, good) ↦
            (let same : some u ≡ some user = ground arith in
              let last : w' ≡ record w { user = some u; web = record w.web { cart = some [] } } =
                ground arith in
              (
                refl,
                (
                  response,
                  session,
                  refl,
                  (get_session-some response session e).0,
                  (get_session-some response session e).1,
                  (identity_of session, identity_of-IsIdentity session, good ∙ ok_of u user same),
                ),
                last ∙ ap (λ x. record w { user = x; web = record w.web { cart = some [] } }) same,
              ))
      ])
    ]
