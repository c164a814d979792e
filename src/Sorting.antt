-- ===== src/Sorting.antt =====
-- Python's `sorted` by a key that is a text.
pub mod Swapped
use mathlib.Core.List.Perm
use mathlib.Core.List.{Perm}
use Prim.Native.Char.{code}
use fast_api_example.Prelude.{
  ltb, ◌==◌, if◌then◌else◌, Bool-cases, String, ◌≡◌, refl, inl, inr, Bool, true, false, ◌&&◌, ◌||◌,
  List, [], ◌∷◌, arith,
}

-- `a <= b` on texts: by their code points.
unfoldable pub leb_text : String → String → Bool
leb_text String.[] b = true
leb_text (String.◌∷◌ c a) String.[] = false
leb_text (String.◌∷◌ c a) (String.◌∷◌ d b) =
    ltb (code c) (code d) || (code c == code d && leb_text a b)

module _ {A : Type 0} (key : A → String) where
  unfoldable pub insert_by : A → List A → List A
  unfolding leb_text
  insert_by x [] = x ∷ []
  insert_by x (y ∷ ys) =
      let inserted = insert_by x ys in if leb_text (key x) (key y) then x ∷ y ∷ ys else y ∷ inserted

  -- `sorted(xs, key=key)`, which keeps the order of equal keys.
  unfoldable pub sorted_by : List A → List A
  unfolding insert_by
  sorted_by [] = []
  sorted_by (x ∷ xs) = insert_by x (sorted_by xs)

pub leb_text_total : (a b : String) → leb_text a b ≡ false → leb_text b a ≡ true
unfolding leb_text
leb_text_total String.[] b h = cc
leb_text_total (String.◌∷◌ c a) String.[] h = refl
leb_text_total (String.◌∷◌ c a) (String.◌∷◌ d b) h = ground (arith, leb_text_total a b)

module _ {A : Type 0} (key : A → String) where
  -- The first item, if any, has a key that is no smaller than this one.
  abbrev pub IsBelow : String → List A → Type 0
  IsBelow k [] = Unit
  IsBelow k (x ∷ xs) = leb_text k (key x) ≡ true

  -- The keys are in order.
  abbrev pub IsSorted : List A → Type 0
  IsSorted [] = Unit
  IsSorted (x ∷ xs) = IsBelow (key x) xs × IsSorted xs

  insert_by-IsBelow :
      (k : String) (x : A) (xs : List A)
      → leb_text k (key x) ≡ true
      → IsBelow k xs
      → IsBelow k (insert_by key x xs)
  unfolding insert_by
  insert_by-IsBelow k x [] below h = below
  insert_by-IsBelow k x (y ∷ ys) below h = ground arith

  insert_by-IsSorted : (x : A) (xs : List A) → IsSorted xs → IsSorted (insert_by key x xs)
  unfolding insert_by
  insert_by-IsSorted x [] h = (tt, tt)
  insert_by-IsSorted x (y ∷ ys) (first, rest) = elim (Bool-cases (leb_text (key x) (key y))) [
    | inl le ↦ rw le (le, (first, rest))
    | inr gt ↦ rw gt (
      insert_by-IsBelow (key y) x ys (leb_text_total (key x) (key y) gt) first,
      insert_by-IsSorted x ys rest,
    )
  ]

  pub sorted_by-IsSorted : (xs : List A) → IsSorted (sorted_by key xs)
  unfolding sorted_by
  sorted_by-IsSorted [] = tt
  sorted_by-IsSorted (x ∷ xs) = insert_by-IsSorted x (sorted_by key xs) (sorted_by-IsSorted xs)

  insert_by-perm : (x : A) (xs : List A) → Perm (insert_by key x xs) (x ∷ xs)
  unfolding insert_by
  insert_by-perm x [] = Perm.refl (x ∷ [])
  insert_by-perm x (y ∷ ys) = elim (Bool-cases (leb_text (key x) (key y))) [
    | inl le ↦ rw le (Perm.refl (x ∷ y ∷ ys))
    | inr gt ↦ rw gt (Perm.trans (Perm.cons y (insert_by-perm x ys)) (Perm.swap x y ys))
  ]

  pub sorted_by-perm : (xs : List A) → Perm (sorted_by key xs) xs
  unfolding sorted_by
  sorted_by-perm [] = Perm.refl []
  sorted_by-perm (x ∷ xs) =
      Perm.trans (insert_by-perm x (sorted_by key xs)) (Perm.cons x (sorted_by-perm xs))
