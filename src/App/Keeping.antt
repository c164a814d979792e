-- ===== src/App/Keeping.antt =====
-- What an action leaves true of the state, whether it returns or raises.
use fast_api_example.App.Monad.{
  Action, Result, Result-cases, pure, raise, gets, lift, or_raise, modify, raise_if, ◌>>=◌,
}
use fast_api_example.Errors.{Exception}
use fast_api_example.Prelude.{inl, inr, Bool, Option, none, some}

module _ {S : Type 0} (P : S → Type 0) where
  abbrev pub Keeps : {A : Type 0} → Action S A → Type 0
  Keeps m = (s : S) → P s → P (m s).1

  pub bind-Keeps :
      {A B : Type 0} (m : Action S A) (f : A → Action S B)
      → Keeps m
      → ((a : A) → Keeps (f a))
      → Keeps (m >>= f)
  unfolding ◌>>=◌
  bind-Keeps m f first next s p = elim (Result-cases (m s).0) [
    | inl (a, e) ↦ rw e (next a (m s).1 (first s p))
    | inr (x, e) ↦ rw e (first s p)
  ]

  pub pure-Keeps : {A : Type 0} (a : A) → Keeps (pure a)
  unfolding pure
  pure-Keeps a s p = p

  pub raise-Keeps : (A : Type 0) (e : Exception) → Keeps (raise {A = A} e)
  unfolding raise
  raise-Keeps A e s p = p

  pub gets-Keeps : {A : Type 0} (f : S → A) → Keeps (gets f)
  unfolding gets
  gets-Keeps f s p = p

  pub lift-Keeps : {A : Type 0} (r : Result A) → Keeps (lift r)
  unfolding lift
  lift-Keeps r s p = p

  pub or_raise-Keeps : {A : Type 0} (a : Option A) (e : Exception) → Keeps (or_raise a e)
  unfolding or_raise
  or_raise-Keeps none e s p = p
  or_raise-Keeps (some a) e s p = p

  pub raise_if-Keeps : (c : Bool) (e : Exception) → Keeps (raise_if c e)
  unfolding raise_if
  raise_if-Keeps c e s p = p

  pub modify-Keeps : (f : S → S) → ((s : S) → P s → P (f s)) → Keeps (modify f)
  unfolding modify
  modify-Keeps f each s p = each s p

pub ruleset keeping = (
  bind-Keeps, pure-Keeps, raise-Keeps, gets-Keeps, lift-Keeps, or_raise-Keeps, raise_if-Keeps,
  modify-Keeps,
)
