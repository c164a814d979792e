-- ===== src/Prelude/Sums.antt =====
-- Sums of integers over a list.
use mathlib.Core.Path.{◌≡◌}
use mathlib.Core.List.{List, [], ◌∷◌, ◌++◌}
use fast_api_example.Prelude.Int.{ℤ, pos, ◌+ℤ◌, ◌*ℤ◌, int_laws, add_mul, zero-*ℤ}

module _ {ℓ} {A : Type ℓ} where
  -- `sum([f(x) for x in xs])`
  abbrev pub sum_by : (A → ℤ) → List A → ℤ
  sum_by f [] = pos 0
  sum_by f (x ∷ xs) = f x +ℤ sum_by f xs

  pub sum_by-append :
      (f : A → ℤ) (xs ys : List A) → sum_by f (xs ++ ys) ≡ sum_by f xs +ℤ sum_by f ys
  sum_by-append f [] ys = omega int_laws
  sum_by-append f (x ∷ xs) ys = rw (sum_by-append f xs ys) (omega int_laws)

  pub sum_by-mul : (f : A → ℤ) (k : ℤ) (xs : List A) → sum_by (λ x. f x *ℤ k) xs ≡ sum_by f xs *ℤ k
  sum_by-mul f k [] = rw zero-*ℤ
  sum_by-mul f k (x ∷ xs) = rw (add_mul, sum_by-mul f k xs)
