-- ===== src/App/Tables.antt =====
-- Laws of the row updates.
use fast_api_example.Prelude.{
  ◌==◌, if◌then◌else◌, ◌≡◌, refl, ◌≢◌, Bool, ◌||◌, some, List, [], ◌∷◌, arith,
}
use fast_api_example.Database.{Uuid}
use fast_api_example.App.Monad.{update_where, get_by_id, update_by_id}

module _ {A : Type 0} where
  pub update_where_ext :
      (p q : A → Bool) (f : A → A) (rows : List A)
      → ((row : A) → p row ≡ q row)
      → update_where p f rows ≡ update_where q f rows
  update_where_ext p q f [] h = refl
  update_where_ext p q f (row ∷ rows) h = rw (h row, update_where_ext p q f rows h) refl

  -- Two updates by one idempotent change, whose conditions it does not touch, are one.
  pub update_where_twice :
      (p q : A → Bool) (f : A → A) (rows : List A)
      → ((row : A) → q (f row) ≡ q row)
      → ((row : A) → f (f row) ≡ f row)
      → update_where q f (update_where p f rows) ≡ update_where (λ row. p row || q row) f rows
  update_where_twice p q f [] hq hf = refl
  update_where_twice p q f (row ∷ rows) hq hf =
      ground (arith, update_where_twice p q f rows hq hf, hq row, hf row)

  pub update_where_same :
      (p : A → Bool) (f : A → A) (rows : List A)
      → ((row : A) → p (f row) ≡ p row)
      → ((row : A) → f (f row) ≡ f row)
      → update_where p f (update_where p f rows) ≡ update_where p f rows
  update_where_same p f [] hp hf = refl
  update_where_same p f (row ∷ rows) hp hf =
      ground (arith, update_where_same p f rows hp hf, hp row, hf row)

  -- The row that is found by an identifier, after an update that keeps the identifiers.
  pub get-update :
      (id_of : A → Uuid) (k : Uuid) (f : A → A) (rows : List A) (row : A)
      → ((x : A) → id_of (f x) ≡ id_of x)
      → get_by_id id_of k rows ≡ some row
      → get_by_id id_of k (update_by_id id_of k f rows) ≡ some (f row)
  get-update id_of k f [] row hf h = cc
  get-update id_of k f (x ∷ rows) row hf h = ground (arith, get-update id_of k f rows row hf, hf x)

  pub get_by_id-id :
      (id_of : A → Uuid) (k : Uuid) (rows : List A) (row : A)
      → get_by_id id_of k rows ≡ some row
      → id_of row ≡ k
  get_by_id-id id_of k [] row h = cc
  get_by_id-id id_of k (x ∷ rows) row h = ground (arith, get_by_id-id id_of k rows row)

  -- An update of a row with another identifier is not seen.
  pub get-update_ne :
      (id_of : A → Uuid) (j k : Uuid) (f : A → A) (rows : List A)
      → j ≢ k
      → ((x : A) → id_of (f x) ≡ id_of x)
      → get_by_id id_of j (update_by_id id_of k f rows) ≡ get_by_id id_of j rows
  get-update_ne id_of j k f [] ne hf = refl
  get-update_ne id_of j k f (x ∷ rows) ne hf =
      ground (arith, get-update_ne id_of j k f rows ne hf, hf x)

  -- The row that is found by an identifier after an update by another one, or by the same.
  pub get-update_if :
      (id_of : A → Uuid) (j k : Uuid) (f : A → A) (rows : List A) (row : A)
      → ((x : A) → id_of (f x) ≡ id_of x)
      → get_by_id id_of j rows ≡ some row
      → get_by_id id_of j (update_by_id id_of k f rows)
        ≡ some (if id_of row == k then f row else row)
  get-update_if id_of j k f [] row hf h = cc
  get-update_if id_of j k f (x ∷ rows) row hf h =
      ground (arith, get-update_if id_of j k f rows row hf, hf x)
