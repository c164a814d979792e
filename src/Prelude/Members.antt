-- ===== src/Prelude/Members.antt =====
-- The elements of a list, and what `find`, `filter` and `all` say of them.
use mathlib.Core.Path.{◌≡◌, refl, ap, subst, subst⁻¹}
use native.Mathlib.Omega.{arith}
use mathlib.Core.Bool.{Bool, true, false}
use mathlib.Core.Logic.{◌⊎◌, inl, inr}
use mathlib.Core.List.{List, [], ◌∷◌, map}
use mathlib.Core.Option.{some}
use fast_api_example.Prelude.Tests.{Bool-cases}
use fast_api_example.Prelude.Lists.{filter, all, any, find, All}

module _ {A : Type 0} where
  -- `x` is an element of the list.
  abbrev pub Member : A → List A → Type 0
  Member x [] = ⊥
  Member x (y ∷ ys) = (x ≡ y) ⊎ Member x ys

  pub All_of {κ} : (P : A → Type κ) (xs : List A) (x : A) → All P xs → Member x xs → P x
  All_of P [] x h m = absurd m
  All_of P (y ∷ ys) x h (inl e) = subst⁻¹ P e h.0
  All_of P (y ∷ ys) x h (inr m) = All_of P ys x h.1 m

  pub All-map {κ κ'} :
      (P : A → Type κ) (Q : A → Type κ') (xs : List A) → ((x : A) → P x → Q x) → All P xs → All Q xs
  All-map P Q [] f h = tt
  All-map P Q (x ∷ xs) f h = (f x h.0, All-map P Q xs f h.1)

  pub find-Member :
      (p : A → Bool) (xs : List A) (x : A) → find p xs ≡ some x → Member x xs × (p x ≡ true)
  find-Member p [] x h = absurd (ground arith)
  find-Member p (y ∷ ys) x h = elim (Bool-cases (p y)) [
    | inl e ↦ (let same : x ≡ y = ground arith in (inl same, rw same e))
    | inr e ↦ (let there = find-Member p ys x (ground arith) in (inr there.0, there.1))
  ]

  filter-true :
      (p : A → Bool) (x : A) (xs : List A) → p x ≡ true → filter p (x ∷ xs) ≡ x ∷ filter p xs
  filter-true p x xs e = rw e refl

  filter-false :
      (p : A → Bool) (x : A) (xs : List A) → p x ≡ false → filter p (x ∷ xs) ≡ filter p xs
  filter-false p x xs e = rw e refl

  pub Member-filter :
      (p : A → Bool) (xs : List A) (x : A) → Member x (filter p xs) → Member x xs × (p x ≡ true)
  Member-filter p [] x m = absurd m
  Member-filter p (y ∷ ys) x m = elim (Bool-cases (p y)) [
    | inl e ↦ (elim (subst (Member x) (filter-true p y ys e) m) [
      | inl same ↦ (inl same, rw same e)
      | inr there ↦ (let rest = Member-filter p ys x there in (inr rest.0, rest.1))
    ])
    | inr e ↦
        (let rest = Member-filter p ys x (subst (Member x) (filter-false p y ys e) m) in
          (inr rest.0, rest.1))
  ]

  pub filter-Member :
      (p : A → Bool) (xs : List A) (x : A) → Member x xs → p x ≡ true → Member x (filter p xs)
  filter-Member p [] x m h = absurd m
  filter-Member p (y ∷ ys) x (inl e) h = rw (subst (λ z. p z ≡ true) e h) (inl e)
  filter-Member p (y ∷ ys) x (inr m) h = elim (Bool-cases (p y)) [
    | inl e ↦ rw e (inr (filter-Member p ys x m h))
    | inr e ↦ rw e (filter-Member p ys x m h)
  ]

  pub any-Member :
      (p : A → Bool) (xs : List A) → any p xs ≡ true → (x : A) × Member x xs × (p x ≡ true)
  any-Member p [] h = absurd (ground arith)
  any-Member p (x ∷ xs) h = elim (Bool-cases (p x)) [
    | inl e ↦ (x, inl refl, e)
    | inr e ↦ (let (y, m, q) = any-Member p xs (ground arith) in (y, inr m, q))
  ]

  pub all-All : (p : A → Bool) (xs : List A) (x : A) → all p xs ≡ true → Member x xs → p x ≡ true
  all-All p [] x h m = absurd m
  all-All p (y ∷ ys) x h (inl e) = rw e (ground arith)
  all-All p (y ∷ ys) x h (inr m) = all-All p ys x (ground arith) m

  pub any-none :
      (p : A → Bool) (xs : List A) → ((x : A) → Member x xs → p x ≡ false) → any p xs ≡ false
  any-none p [] h = refl
  any-none p (x ∷ xs) h = ground (arith, h x (inl refl), any-none p xs (λ y m. h y (inr m)))

  pub none_of_any :
      (p : A → Bool) (xs : List A) (x : A) → any p xs ≡ false → Member x xs → p x ≡ false
  none_of_any p [] x h m = absurd m
  none_of_any p (y ∷ ys) x h (inl e) = rw e (ground arith)
  none_of_any p (y ∷ ys) x h (inr m) = none_of_any p ys x (ground arith) m

  pub Member-any : (p : A → Bool) (xs : List A) (x : A) → Member x xs → p x ≡ true → any p xs ≡ true
  Member-any p xs x m h = elim (Bool-cases (any p xs)) [
    | inl e ↦ e
    | inr e ↦ absurd (ground (arith, none_of_any p xs x e m))
  ]

  pub All-intro {κ} : (P : A → Type κ) (xs : List A) → ((x : A) → Member x xs → P x) → All P xs
  All-intro P [] h = tt
  All-intro P (x ∷ xs) h = (h x (inl refl), All-intro P xs (λ y m. h y (inr m)))

pub Member-map :
    {A B : Type 0} (f : A → B) (xs : List A) (y : B)
    → Member y (map f xs)
    → (x : A) × Member x xs × (y ≡ f x)
Member-map f [] y m = absurd m
Member-map f (x ∷ xs) y (inl e) = (x, inl refl, e)
Member-map f (x ∷ xs) y (inr m) = let (z, there, e) = Member-map f xs y m in (z, inr there, e)

pub map-Member :
    {A B : Type 0} (f : A → B) (xs : List A) (x : A) → Member x xs → Member (f x) (map f xs)
map-Member f [] x m = absurd m
map-Member f (y ∷ ys) x (inl e) = inl (ap f e)
map-Member f (y ∷ ys) x (inr m) = inr (map-Member f ys x m)
