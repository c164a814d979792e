-- ===== src/Catalog/Checkout/Sound.antt =====
-- What `CatalogService.verify_checkout_data` (src/services/catalog/service.py) answers.
use mathlib.Core.Path.{subst}
use fast_api_example.Prelude.{
  ltb_ℤ, pos, ◌≢◌, ◌-ℤ◌, ℤ, min_ℤ, length, All, Member, All-map, all-All, ℕ, ◌+◌, ◌≡◌, refl, sym,
  ap, ◌∙◌, inl, inr, true, Option, none, some, List, [], ◌∷◌, map, arith,
}
use fast_api_example.Database.{Uuid, Db, CatalogItemOrm}
use fast_api_example.App.{Result-cases, Env, World, ok, ◌>>=◌}
use fast_api_example.Catalog.Models.{
  CatalogItemQuantity, ShortCheckoutItem, AvailableCheckoutItem, CheckoutData,
  CatalogItemCheckoutDataDto,
}
use fast_api_example.Catalog.Checkout.{
  get_catalog_items_checkout_data, same_id, max_cart_item_quantity, verify_loop, verify_sections,
  verify_checkout_data,
}
use fast_api_example.Catalog.Checkout.Rows.{IsOnSale, found_row}
use fast_api_example.Catalog.Checkout.Requested.{
  IsCutFrom, Answers, Answers-map, verify_loop-Answers,
}
use fast_api_example.Catalog.Checkout.Items.{
  HasRoom, IsPassed, IsCut, available_left, verify_loop-IsSorted,
}

-- An active item is sold at its price, and there is room for the quantity asked for.
abbrev pub IsOffered : Db → AvailableCheckoutItem → Type 0
IsOffered db item =
    (row : CatalogItemOrm) × IsOnSale db item.id row
    × (item.price ≡ row.price)
    × HasRoom row.quantity row.ordered_quantity item.quantity

-- An active item is asked for in a smaller quantity: what is left of it, and at most the limit of
-- a cart.
abbrev pub IsShort : Db → ShortCheckoutItem → Type 0
IsShort db item =
    (row : CatalogItemOrm) × (total : ℤ) × IsOnSale db item.id row
    × (row.quantity ≡ some total)
    × (item.quantity ≡ min_ℤ (total -ℤ row.ordered_quantity) max_cart_item_quantity)

-- It was asked for in more pieces than that.
abbrev pub IsShortOf : Db → ℤ → ShortCheckoutItem → Type 0
IsShortOf db quantity item =
    (row : CatalogItemOrm) × (total : ℤ) × IsOnSale db item.id row
    × (row.quantity ≡ some total)
    × (total ≢ pos 0)
    × (ltb_ℤ (total -ℤ row.ordered_quantity) quantity ≡ true)
    × (item.quantity ≡ min_ℤ (total -ℤ row.ordered_quantity) max_cart_item_quantity)

same_id-eq : (a b : Option Uuid) → same_id a b ≡ true → a ≡ b
unfolding same_id
same_id-eq none none h = refl
same_id-eq none (some b) h = cc
same_id-eq (some a) none h = cc
same_id-eq (some a) (some b) h = ground arith

verify_sections-ok :
    (dtos : List CatalogItemCheckoutDataDto)
    → verify_sections dtos ≡ ok tt
    → (section : Option Uuid) × ((dto : CatalogItemCheckoutDataDto)
        → Member dto dtos
        → dto.preorder_id ≡ section)
unfolding verify_sections
verify_sections-ok [] h = cc
verify_sections-ok (first ∷ dtos) h = (
  first.preorder_id,
  λ dto m. same_id-eq dto.preorder_id first.preorder_id (
      all-All (λ dto. same_id dto.preorder_id first.preorder_id) (first ∷ dtos) dto (ground arith)
        m),
)

module _ (ids : List Uuid) (db : Db) (dtos : List CatalogItemCheckoutDataDto)
    (made : get_catalog_items_checkout_data ids db ≡ ok dtos) where
  passed-IsOffered : (item : AvailableCheckoutItem) → IsPassed dtos item → IsOffered db item
  passed-IsOffered item (dto, found, room, price, title, preorder) =
      let (m, row, sale, fields) = found_row ids db dtos made item.id dto found in
      (
        row,
        sale,
        price ∙ fields.3,
        subst (λ total. HasRoom total row.ordered_quantity item.quantity) fields.1
            (subst (λ ordered. HasRoom dto.total ordered item.quantity) fields.2 room),
      )

  cut-IsShort : (item : ShortCheckoutItem) → IsCut dtos item → IsShort db item
  cut-IsShort item (dto, left, found, avail, amount) =
      let (m, row, sale, fields) = found_row ids db dtos made item.id dto found in
      let (total, limit, rest) = available_left dto left avail in
      (
        row,
        total,
        sale,
        sym fields.1 ∙ limit,
        amount
            ∙ ap (λ n. min_ℤ n max_cart_item_quantity)
                (rest ∙ ap (λ ordered. total -ℤ ordered) fields.2),
      )

  cut-IsShortOf :
      (quantity : ℤ) (item : ShortCheckoutItem)
      → IsCutFrom dtos quantity item
      → IsShortOf db quantity item
  cut-IsShortOf quantity item (dto, left, found, avail, nonzero, more, amount) =
      let (m, row, sale, fields) = found_row ids db dtos made item.id dto found in
      let (total, limit, rest) = available_left dto left avail in
      let is_left : left ≡ total -ℤ row.ordered_quantity =
        rest ∙ ap (λ ordered. total -ℤ ordered) fields.2 in
      (
        row,
        total,
        sale,
        sym fields.1 ∙ limit,
        (λ zero. nonzero (limit ∙ ap some zero)),
        subst (λ n. ltb_ℤ n quantity ≡ true) is_left more,
        amount ∙ ap (λ n. min_ℤ n max_cart_item_quantity) is_left,
      )

-- What the loop has sorted, as the table says it.
abbrev pub IsVerified : Db → ℕ → CheckoutData → Type 0
IsVerified db n data' =
    All (IsOffered db) data'.available_items
    × All (IsShort db) data'.adjusted_items
    × (length data'.available_items + length data'.adjusted_items ≡ n)
    × (section : Option Uuid) × All (λ item. item.preorder_id ≡ section) data'.available_items

verified :
    (ids : List Uuid) (db : Db) (dtos : List CatalogItemCheckoutDataDto)
    → get_catalog_items_checkout_data ids db ≡ ok dtos
    → verify_sections dtos ≡ ok tt
    → (env : Env) (items : List CatalogItemQuantity) (r : CheckoutData)
    → verify_loop env dtos items (record { available_items = []; adjusted_items = [] }) ≡ ok r
    → IsVerified db (length items) r
verified ids db dtos made fine env items r looped =
    let (sorted, n) =
      verify_loop-IsSorted env dtos items (record { available_items = []; adjusted_items = [] }) r
        looped (tt, tt) in
    let (section, same) = verify_sections-ok dtos fine in
    (
      All-map (IsPassed dtos) (IsOffered db) r.available_items (passed-IsOffered ids db dtos made)
          sorted.0,
      All-map (IsCut dtos) (IsShort db) r.adjusted_items (cut-IsShort ids db dtos made) sorted.1,
      omega (arith, n),
      section,
      All-map (IsPassed dtos) (λ item. item.preorder_id ≡ section) r.available_items
          (λ item passed.
            passed.5 ∙ same passed.0 (found_row ids db dtos made item.id passed.0 passed.1).0)
          sorted.0,
    )

-- The items of the request are answered as the table says, one after another.
abbrev pub IsAnswered : Db → List CatalogItemQuantity → CheckoutData → Type 0
IsAnswered db items result =
    Answers (IsOffered db) (IsShortOf db) items result.available_items result.adjusted_items

answered :
    (ids : List Uuid) (db : Db) (dtos : List CatalogItemCheckoutDataDto)
    → get_catalog_items_checkout_data ids db ≡ ok dtos
    → (env : Env) (items : List CatalogItemQuantity) (r : CheckoutData)
    → verify_loop env dtos items (record { available_items = []; adjusted_items = [] }) ≡ ok r
    → IsAnswered db items r
answered ids db dtos made env items r looped =
    let (passed, cut, av, ad, h) =
      verify_loop-Answers env dtos items (record { available_items = []; adjusted_items = [] }) r
        looped in
    let of_table =
      Answers-map (IsPassed dtos) (IsOffered db) (IsCutFrom dtos) (IsShortOf db)
        (passed-IsOffered ids db dtos made) (cut-IsShortOf ids db dtos made) items passed cut h in
    subst (λ l. Answers (IsOffered db) (IsShortOf db) items l r.adjusted_items) (sym av)
      (subst (λ l. Answers (IsOffered db) (IsShortOf db) items passed l) (sym ad) of_table)

-- An answer of `verify_checkout_data` is right, and the state is as it was. The items of the
-- request are answered one after another, in their order: an available item has the quantity asked
-- for, is an active row, at the price of that row, with room for its quantity (or with a total of
-- zero); an adjusted item is an active row with a limit, which was asked for in more pieces than
-- are left, cut to what is left and to the limit of a cart. Together they are as many as were
-- asked for, and all available items are of one preorder, or of none.
pub verify_checkout_data_sound :
    (env : Env) (items : List CatalogItemQuantity) (w w' : World) (result : CheckoutData)
    → verify_checkout_data env items w ≡ (ok result, w')
    → (w' ≡ w) × IsVerified w.db (length items) result × IsAnswered w.db items result
unfolding verify_checkout_data ◌>>=◌
verify_checkout_data_sound env items w w' result h =
    let ids = map (λ item. item.id) items in
    let start : CheckoutData = record { available_items = []; adjusted_items = [] } in
    elim (Result-cases (get_catalog_items_checkout_data ids w.db)) [
      | inr (e, bad) ↦ absurd (ground arith)
      | inl (dtos, made) ↦ (elim (Result-cases (verify_sections dtos)) [
        | inr (e, bad) ↦ absurd (ground arith)
        | inl (u, fine) ↦ (elim (Result-cases (verify_loop env dtos items start)) [
          | inr (e, bad) ↦ absurd (ground arith)
          | inl (r, looped) ↦
              (let same_w : w' ≡ w = ground arith in
                let same_r : r ≡ result = ground arith in
                (
                  same_w,
                  subst (IsVerified w.db (length items)) same_r
                      (verified ids w.db dtos made fine env items r looped),
                  subst (IsAnswered w.db items) same_r
                      (answered ids w.db dtos made env items r looped),
                ))
        ])
      ])
    ]
