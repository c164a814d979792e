-- ===== src/App/Results.antt =====
-- Steps that may raise, and lists of them.
use mathlib.Core.Path.{subst}
use fast_api_example.Prelude.{inl, inr, All, ◌≡◌, refl, sym, ap, ◌∙◌, List, [], ◌∷◌, map, arith}
use fast_api_example.App.Monad.{Action, Result-cases, ◌>>=◌, Result, ok, err}

abbrev pub and_then : {A B : Type 0} → Result A → (A → Result B) → Result B
and_then (ok a) f = f a
and_then (err e) f = err e

-- `[f(x) for x in xs]`, where `f` may raise.
unfoldable pub all_of : {A B : Type 0} → (A → Result B) → List A → Result (List B)
all_of f [] = ok []
all_of f (x ∷ xs) = and_then (f x) (λ y. and_then (all_of f xs) (λ ys. ok (y ∷ ys)))

pub and_then-ok :
    {A B : Type 0} (r : Result A) (f : A → Result B) (b : B)
    → and_then r f ≡ ok b
    → (a : A) × (r ≡ ok a) × (f a ≡ ok b)
and_then-ok (ok a) f b h = (a, refl, h)
and_then-ok (err e) f b h = absurd (ground arith)

-- What a list made by `f` keeps of the things it is made of.
pub all_of-map :
    {A B C : Type 0} (f : A → Result B) (g : A → C) (k : B → C) (xs : List A) (ys : List B)
    → ((x : A) (y : B) → f x ≡ ok y → k y ≡ g x)
    → all_of f xs ≡ ok ys
    → map k ys ≡ map g xs
unfolding all_of
all_of-map f g k [] ys kept h = let same : [] ≡ ys = ground arith in ap (map k) (sym same)
all_of-map f g k (x ∷ xs) ys kept h =
    let (y, e, h1) = and_then-ok (f x) (λ y. and_then (all_of f xs) (λ ys. ok (y ∷ ys))) ys h in
    let (rest, e', h2) = and_then-ok (all_of f xs) (λ ys. ok (y ∷ ys)) ys h1 in
    let same : y ∷ rest ≡ ys = ground arith in
    ap (map k) (sym same)
    ∙ (ap (λ c. c ∷ map k rest) (kept x y e) ∙ ap (λ l. g x ∷ l) (all_of-map f g k xs rest kept e'))

pub all_of-All :
    {A B : Type 0} (f : A → Result B) (P : B → Type 0) (xs : List A) (ys : List B)
    → ((x : A) (y : B) → f x ≡ ok y → P y)
    → all_of f xs ≡ ok ys
    → All P ys
unfolding all_of
all_of-All f P [] ys each h = let same : [] ≡ ys = ground arith in subst (All P) same tt
all_of-All f P (x ∷ xs) ys each h =
    let (y, e, h1) = and_then-ok (f x) (λ y. and_then (all_of f xs) (λ ys. ok (y ∷ ys))) ys h in
    let (rest, e', h2) = and_then-ok (all_of f xs) (λ ys. ok (y ∷ ys)) ys h1 in
    let same : y ∷ rest ≡ ys = ground arith in
    subst (All P) same (each x y e, all_of-All f P xs rest each e')

-- What an action that returns went through.
pub bind-ok :
    {S A B : Type 0} (m : Action S A) (k : A → Action S B) (s s' : S) (b : B)
    → (m >>= k) s ≡ (ok b, s')
    → (a : A) × (t : S) × (m s ≡ (ok a, t)) × (k a t ≡ (ok b, s'))
unfolding ◌>>=◌
bind-ok m k s s' b h = elim (Result-cases (m s).0) [
  | inl (a, returned) ↦ (a, (m s).1, ground arith, ground arith)
  | inr (e, raised) ↦ absurd (ground arith)
]
