-- ===== src/Sorting/Swapped.antt =====
-- `sorted` forgets the order of items with different keys.
use Prim.Native.Char.{code}
use text.Mathlib.TextEquality.{Char-path}
use fast_api_example.Prelude.{String, ◌≡◌, refl, ap, ◌≢◌, true, List, [], ◌∷◌, ◌++◌, arith}
use fast_api_example.Sorting.{leb_text, leb_text_total, insert_by, sorted_by}

leb_text_trans : (a b c : String) → leb_text a b ≡ true → leb_text b c ≡ true → leb_text a c ≡ true
unfolding leb_text
leb_text_trans String.[] b c p q = refl
leb_text_trans (String.◌∷◌ x a) String.[] c p q = cc
leb_text_trans (String.◌∷◌ x a) (String.◌∷◌ y b) String.[] p q = cc
leb_text_trans (String.◌∷◌ x a) (String.◌∷◌ y b) (String.◌∷◌ z c) p q =
    ground (arith, leb_text_trans a b c)

leb_text_antisymm : (a b : String) → leb_text a b ≡ true → leb_text b a ≡ true → a ≡ b
unfolding leb_text
leb_text_antisymm String.[] String.[] p q = refl
leb_text_antisymm String.[] (String.◌∷◌ y b) p q = cc
leb_text_antisymm (String.◌∷◌ x a) String.[] p q = cc
leb_text_antisymm (String.◌∷◌ x a) (String.◌∷◌ y b) p q =
    let same : code x ≡ code y = ground arith in
    let rest : a ≡ b = leb_text_antisymm a b (ground arith) (ground arith) in
    cc (Char-path x y same)

module _ {A : Type 0} (key : A → String) where
  insert_by_comm :
      (x y : A) (zs : List A)
      → key x ≢ key y
      → insert_by key x (insert_by key y zs) ≡ insert_by key y (insert_by key x zs)
  unfolding insert_by
  insert_by_comm x y [] ne = ground (
    arith,
    leb_text_total (key x) (key y),
    leb_text_total (key y) (key x),
    leb_text_antisymm (key x) (key y),
  )
  insert_by_comm x y (z ∷ zs) ne = ground (
    arith,
    insert_by_comm x y zs ne,
    leb_text_total (key x) (key y),
    leb_text_total (key y) (key x),
    leb_text_antisymm (key x) (key y),
    leb_text_trans (key x) (key y) (key z),
    leb_text_trans (key y) (key x) (key z),
    leb_text_total (key x) (key z),
    leb_text_total (key y) (key z),
    leb_text_trans (key z) (key x) (key y),
    leb_text_trans (key z) (key y) (key x),
    leb_text_trans (key x) (key z) (key y),
    leb_text_trans (key y) (key z) (key x),
  )

  -- Two neighbours with different keys may change places.
  pub sorted_by-swap :
      (xs : List A) (x y : A) (ys : List A)
      → key x ≢ key y
      → sorted_by key (xs ++ (x ∷ y ∷ ys)) ≡ sorted_by key (xs ++ (y ∷ x ∷ ys))
  unfolding sorted_by
  sorted_by-swap [] x y ys ne = insert_by_comm x y (sorted_by key ys) ne
  sorted_by-swap (z ∷ zs) x y ys ne = ap (insert_by key z) (sorted_by-swap zs x y ys ne)
