-- ===== src/Catalog/Checkout/Agreement.antt =====
-- The reservation (`reserve_catalog_items`) after a check of the same items
-- (`verify_checkout_data`): src/services/catalog/service.py.
use mathlib.Core.Path.{subst}
use fast_api_example.Prelude.{
  ◌+ℤ◌, ℤ, pos, Option-cases, All, Member, All_of, Member-map, ◌≡◌, refl, sym, ap, ◌∙◌, ◌≢◌, inl,
  inr, Option, none, some, List, [], ◌∷◌, map, arith,
}
use fast_api_example.Database.{Uuid, CatalogItemOrm}
use fast_api_example.App.{Env, World, ok}
use fast_api_example.Catalog.Models.{CatalogItemQuantity, ShortCheckoutItem, CheckoutData}
use fast_api_example.Catalog.Checkout.{requested, reserve_catalog_items, verify_checkout_data}
use fast_api_example.Catalog.Checkout.Items.{HasRoom}
use fast_api_example.Catalog.Checkout.Sound.{IsOffered, verify_checkout_data_sound}
use fast_api_example.Catalog.Checkout.Reserve.{Holds, Fits, reserved, reserve_catalog_items-ok}

requested-Member :
    (items : List ShortCheckoutItem) (id : Uuid) (quantity : ℤ)
    → requested items id ≡ some quantity
    → (item : ShortCheckoutItem) × Member item items × (item.id ≡ id) × (item.quantity ≡ quantity)
unfolding requested
requested-Member [] id quantity h = absurd (ground arith)
requested-Member (item ∷ items) id quantity h = elim (Option-cases (requested items id)) [
  | inl e ↦ (item, inl refl, ground arith, ground arith)
  | inr (q, e) ↦
      (let (found, there, same, amount) = requested-Member items id q e in
        (found, inr there, same, amount ∙ ground arith))
]

-- What the checkout passes on.
abbrev pub asked_of : CheckoutData → List ShortCheckoutItem
asked_of result = map (λ item. item.short) result.available_items

room-Holds :
    (total : Option ℤ) (ordered quantity : ℤ)
    → total ≢ some (pos 0)
    → HasRoom total ordered quantity
    → Holds total (ordered +ℤ quantity)
room-Holds none ordered quantity ne room = tt
room-Holds (some t) ordered quantity ne (inl zero_there) = absurd (ne (ap (λ n. some n) zero_there))
room-Holds (some t) ordered quantity ne (inr within) = within

room-Fits :
    (row : CatalogItemOrm) (quantity : ℤ)
    → row.quantity ≢ some (pos 0)
    → HasRoom row.quantity row.ordered_quantity quantity
    → Fits row quantity
room-Fits row quantity ne room = room-Holds row.quantity row.ordered_quantity quantity ne room

-- What `verify_checkout_data` passes on can be reserved: on the same table, whose rows have an
-- identifier each and no total of zero, `reserve_catalog_items` of the available items succeeds and
-- orders exactly these pieces.
pub verify-reserve :
    (env : Env) (items : List CatalogItemQuantity) (w w' : World) (result : CheckoutData)
    → ((a b : CatalogItemOrm)
        → Member a w.db.catalog_items
        → Member b w.db.catalog_items
        → a.id ≡ b.id
        → a ≡ b)
    → All (λ row. row.quantity ≢ some (pos 0)) w.db.catalog_items
    → verify_checkout_data env items w ≡ (ok result, w')
    → reserve_catalog_items (asked_of result) w' ≡ (ok tt, reserved (asked_of result) w)
verify-reserve env items w w' result keyed nonzero h =
    let (same, verified, _) = verify_checkout_data_sound env items w w' result h in
    rw same (
      reserve_catalog_items-ok (asked_of result) w (λ row quantity there e.
        let (short, member, id, amount) = requested-Member (asked_of result) row.id quantity e in
        let (item, on, made) =
          Member-map (λ item. item.short) result.available_items short member in
        let (sold, (on_file, sold_id, active), price, room) =
          All_of (IsOffered w.db) result.available_items item verified.0 on in
        let one : sold ≡ row =
          keyed sold row on_file there (sold_id ∙ sym (ap (λ s. s.id) made) ∙ id) in
        let q : item.quantity ≡ quantity = sym (ap (λ s. s.quantity) made) ∙ amount in
        room-Fits row quantity
          (All_of (λ row. row.quantity ≢ some (pos 0)) w.db.catalog_items row nonzero there)
          (subst (λ n. HasRoom row.quantity row.ordered_quantity n) q
            (subst (λ r. HasRoom r.quantity r.ordered_quantity item.quantity) one room))))
