-- ===== src/Catalog/Publications/Listed.antt =====
-- What `get_publications` (src/services/catalog/service.py) lists.
use mathlib.Core.Path.{subst}
use fast_api_example.Prelude.{
  Bool, true, ◌==◌, ◌&&◌, ◌↔◌, Member, Member-map, map-Member, Member-filter, filter-Member,
  any-Member, Member-any, All-map, Option-cases, filter, All, ◌≡◌, sym, ap, ◌∙◌, inl, inr, List,
  map, arith,
}
use fast_api_example.Database.{Uuid, Db, CatalogItemOrm, PublicationOrm}
use fast_api_example.App.{
  all_of, and_then-ok, all_of-map, all_of-All, World, Result-cases, ok, get_by_id, ◌>>=◌,
}
use fast_api_example.Catalog.Publications.{
  Validated, CatalogItem, Publication, credit_info, product_of, catalog_item, active_items_of,
  preorder_of, publication_of, has_active, get_publications,
}

module _ (v : Validated) (db : Db) where
  catalog_item-id :
      (item : CatalogItemOrm) (made : CatalogItem)
      → catalog_item v db item ≡ ok made
      → made.id ≡ item.id
  unfolding catalog_item
  catalog_item-id item made h =
      let (credit, e, h1) = and_then-ok (credit_info v db item.credit_plan_id) _ made h in
      elim (Option-cases (get_by_id (λ p. p.id) item.product_id db.products)) [
        | inl missing ↦ absurd (ground arith)
        | inr (row, found) ↦ (elim (Result-cases (product_of v db row)) [
          | inr (x, bad) ↦ absurd (ground arith)
          | inl (product, good) ↦ ground arith
        ])
      ]

  publication_of-id :
      (row : PublicationOrm) (made : Publication)
      → publication_of v db row ≡ ok made
      → made.id ≡ row.id
  unfolding publication_of
  publication_of-id row made h =
      let (items, e, h1) =
        and_then-ok (all_of (catalog_item v db) (active_items_of db row.id)) _ made h in
      let (preorder, e', h2) = and_then-ok (preorder_of v db row) _ made h1 in ground arith

  publication_of-items :
      (row : PublicationOrm) (made : Publication)
      → publication_of v db row ≡ ok made
      → map (λ item. item.id) made.items ≡ map (λ item. item.id) (active_items_of db row.id)
  unfolding publication_of
  publication_of-items row made h =
      let (items, e, h1) =
        and_then-ok (all_of (catalog_item v db) (active_items_of db row.id)) _ made h in
      let (preorder, e', h2) = and_then-ok (preorder_of v db row) _ made h1 in
      let same : items ≡ made.items = ground arith in
      ap (λ l. map (λ (item : CatalogItem). item.id) l) (sym same)
      ∙ all_of-map (catalog_item v db) (λ item. item.id) (λ made. made.id)
          (active_items_of db row.id) items catalog_item-id e

-- An active row of a publication.
abbrev pub IsActiveOf : Db → Uuid → CatalogItemOrm → Type 0
IsActiveOf db publication_id item =
    Member item db.catalog_items × (item.publication_id ≡ publication_id) × (item.is_active ≡ true)

abbrev pub HasActive : Db → Uuid → Type 0
HasActive db id =
    (row : PublicationOrm) × Member row db.publications
    × (row.id ≡ id)
    × ((item : CatalogItemOrm) × IsActiveOf db row.id item)

has_active_iff :
    (db : Db) (row : PublicationOrm)
    → (has_active db row ≡ true) ↔ ((item : CatalogItemOrm) × IsActiveOf db row.id item)
unfolding has_active
has_active_iff db row =
    let is_its : CatalogItemOrm → Bool = λ item. item.publication_id == row.id && item.is_active in
    (
      (λ h.
          (let (item, m, its) = any-Member is_its db.catalog_items h in
            (item, (m, ground arith, ground arith)))),
      (λ h.
          (let (item, (m, id, active)) = h in
            Member-any is_its db.catalog_items item m (ground arith))),
    )

listed_iff :
    (db : Db) (id : Uuid)
    → Member id (map (λ (row : PublicationOrm). row.id) (filter (has_active db) db.publications))
      ↔ HasActive db id
listed_iff db id = (
  (λ m.
      (let (row, there, same) =
          Member-map (λ (row : PublicationOrm). row.id) (filter (has_active db) db.publications) id
            m in
        let (on_file, active) = Member-filter (has_active db) db.publications row there in
        (row, on_file, sym same, (has_active_iff db row).0 active))),
  (λ h.
      (let (row, on_file, same, active) = h in
        subst
          (λ k.
            Member k
              (map (λ (row : PublicationOrm). row.id) (filter (has_active db) db.publications)))
          same
          (map-Member (λ (row : PublicationOrm). row.id) (filter (has_active db) db.publications)
            row
            (filter-Member (has_active db) db.publications row on_file
              ((has_active_iff db row).1 active))))),
)

active_items_iff :
    (db : Db) (publication_id id : Uuid)
    → Member id (map (λ (item : CatalogItemOrm). item.id) (active_items_of db publication_id))
      ↔ ((item : CatalogItemOrm) × IsActiveOf db publication_id item × (item.id ≡ id))
unfolding active_items_of
active_items_iff db publication_id id =
    let is_its : CatalogItemOrm → Bool =
      λ item. item.publication_id == publication_id && item.is_active in
    (
      (λ m.
          (let (item, there, same) =
              Member-map (λ (item : CatalogItemOrm). item.id) (filter is_its db.catalog_items) id
                m in
            let (on_file, its) = Member-filter is_its db.catalog_items item there in
            (item, (on_file, ground arith, ground arith), sym same))),
      (λ h.
          (let (item, (on_file, its, active), same) = h in
            subst
              (λ k.
                Member k
                  (map (λ (item : CatalogItemOrm). item.id) (filter is_its db.catalog_items)))
              same
              (map-Member (λ (item : CatalogItemOrm). item.id) (filter is_its db.catalog_items) item
                (filter-Member is_its db.catalog_items item on_file (ground arith))))),
    )

-- A publication is listed exactly if it is on file and a row on file is an active item of it; with
-- each there are listed the rows on file that are active items of it, and no other. They are in the
-- order of their tables, each as often as it is there, and nothing is changed.
pub get_publications-active :
    (v : Validated) (w w' : World) (listed : List Publication)
    → get_publications v w ≡ (ok listed, w')
    → (w' ≡ w)
      × (map (λ p. p.id) listed ≡ map (λ p. p.id) (filter (has_active w.db) w.db.publications))
      × All
          (λ p. map (λ item. item.id) p.items ≡ map (λ item. item.id) (active_items_of w.db p.id))
          listed
      × ((id : Uuid) → Member id (map (λ p. p.id) listed) ↔ HasActive w.db id)
      × All
          (λ p.
            (id : Uuid)
            → Member id (map (λ item. item.id) p.items)
              ↔ ((item : CatalogItemOrm) × IsActiveOf w.db p.id item × (item.id ≡ id)))
          listed
unfolding get_publications ◌>>=◌
get_publications-active v w w' listed h =
    let rows = filter (has_active w.db) w.db.publications in
    let made : all_of (publication_of v w.db) rows ≡ ok listed = ap (λ r. r.0) h in
    let ids =
      all_of-map (publication_of v w.db) (λ row. row.id) (λ p. p.id) rows listed
        (publication_of-id v w.db) made in
    let items =
      all_of-All (publication_of v w.db)
        (λ p. map (λ item. item.id) p.items ≡ map (λ item. item.id) (active_items_of w.db p.id))
        rows listed
        (λ row p e.
          publication_of-items v w.db row p e
          ∙ ap (λ id. map (λ (item : CatalogItemOrm). item.id) (active_items_of w.db id))
              (sym (publication_of-id v w.db row p e)))
        made in
    (
      sym (ap (λ r. r.1) h),
      ids,
      items,
      (λ id. subst (λ l. Member id l ↔ HasActive w.db id) (sym ids) (listed_iff w.db id)),
      All-map _ _ listed
          (λ p same id.
            subst
              (λ l.
                Member id l
                ↔ ((item : CatalogItemOrm) × IsActiveOf w.db p.id item × (item.id ≡ id)))
              (sym same) (active_items_iff w.db p.id id))
          items,
    )
