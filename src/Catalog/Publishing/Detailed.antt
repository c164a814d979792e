-- ===== src/Catalog/Publishing/Detailed.antt =====
-- What `get_publication` (src/services/catalog/service.py) answers.
use fast_api_example.Prelude.{
  Option-cases, length, ◌+◌, String, ◌≡◌, refl, ◌≢◌, inl, inr, Option, List, [], ◌∷◌, map, arith,
}
use fast_api_example.Errors.{attribute_error}
use fast_api_example.Database.{Uuid, Instant, CatalogItemOrm}
use fast_api_example.App.{Env, World, ok, err, get_by_id, get_by_id-id, all_of, ◌>>=◌}
use fast_api_example.Catalog.Publications.{Validated, active_items_of}
use fast_api_example.Catalog.Publishing.{
  CreateCatalogItemDto, create_publication, detailed_item, get_publication,
}
use fast_api_example.Catalog.Publishing.Created.{IsUnused, kept_of, create_publication_items}

detailed_items-refused :
    (rows : List CatalogItemOrm) → rows ≢ [] → all_of detailed_item rows ≡ err attribute_error
unfolding all_of detailed_item
detailed_items-refused [] filled = absurd (filled refl)
detailed_items-refused (row ∷ rows) filled = refl

-- A publication that has an active item cannot be read: `get_publication` raises
-- AttributeError, and changes nothing.
pub get_publication_active :
    (v : Validated) (id : Uuid) (w : World)
    → active_items_of w.db id ≢ []
    → get_publication v id w ≡ (err attribute_error, w)
unfolding get_publication ◌>>=◌
get_publication_active v id w filled =
    elim (Option-cases (get_by_id (λ p. p.id) id w.db.publications)) [
      | inl missing ↦ rw missing refl
      | inr (publication, found) ↦
          (let same : publication.id ≡ id =
              get_by_id-id (λ p. p.id) id w.db.publications publication found in
            rw
              (found, detailed_items-refused (active_items_of w.db publication.id) (rw same filled))
              refl)
    ]

map-filled : {A B : Type 0} (f : A → B) (xs : List A) → map f xs ≢ [] → xs ≢ []
map-filled f xs filled e = filled (rw e refl)

-- A publication that was just created with an item or more cannot be read, where no item refers
-- to the new identifier before: `get_publication` raises AttributeError for it.
pub get_publication_created :
    (v : Validated) (env : Env) (filed_at : Instant) (link : String) (item : CreateCatalogItemDto)
    (items : List CreateCatalogItemDto) (delivery_cost_included : Option String) (w : World)
    → IsUnused (env.uuid4 (w.drawn + length (item ∷ items))) w.db
    → let (r, w') = create_publication env filed_at link (item ∷ items) delivery_cost_included w in
      (id : Uuid) × (r ≡ ok id) × (get_publication v id w' ≡ (err attribute_error, w'))
get_publication_created v env filed_at link item items delivery_cost_included w unused =
    let (id, created, kept, numbered) =
      create_publication_items env filed_at link (item ∷ items) delivery_cost_included w unused in
    let w' = (create_publication env filed_at link (item ∷ items) delivery_cost_included w).1 in
    (
      id,
      created,
      get_publication_active v id w' (
          map-filled kept_of (active_items_of w'.db id)
            (λ none_kept. ground (arith, kept, none_kept))),
    )
