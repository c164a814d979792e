-- ===== src/Transport/Catalog/Products.antt =====
-- What `create_product_entrypoint` (src/transport/handlers/admin/catalog/entrypoints.py) leaves.
use mathlib.Core.Path.{subst}
use fast_api_example.Prelude.{
  ◌==◌, length, All, ◌≡◌, sym, ap, ◌∙◌, false, List, [], ◌∷◌, ◌++◌, map, arith,
}
use fast_api_example.Database.{Uuid, Instant, Db, ProductOrm, AttachmentOrm}
use fast_api_example.App.{Env, World, Action, Result, ok, lift, pure, bind-ok, ◌>>=◌, ◌>>◌}
use fast_api_example.Catalog.Images.{image_urls}
use fast_api_example.Catalog.Products.{
  Attachment, CreateProductDto, create_product, add_attachments_to_product,
}
use fast_api_example.Catalog.Products.Filed.{create_product-IsFiled}
use fast_api_example.Catalog.Products.Pictures.{IsNumbered, IsBare, image_urls-add_attachments}
use fast_api_example.Files.{Pillow, Storage, Stored, in_world, upload_product_images}
use fast_api_example.Files.Uploads.{AreUploads, upload_images-IsNumbered}
use fast_api_example.Transport.Catalog.{CreateProductSchema, Forms, create_product_entrypoint}

in_world-ok :
    {File A : Type 0} (action : Action World A) (s s' : Stored File) (a : A)
    → in_world action s ≡ (ok a, s')
    → action s.world ≡ (ok a, s'.world)
unfolding in_world
in_world-ok action s s' a h = ground arith

module _ {File Pixels : Type 0} (forms : Forms File) (env : Env) (storage : Storage)
    (pillow : Pillow File Pixels) (filed_at : Instant) (schema : CreateProductSchema File) where
  -- What follows the upload.
  abbrev attach : Uuid → List Attachment → Action (Stored File) Uuid
  attach id attachments = in_world (add_attachments_to_product env filed_at attachments) >> pure id

  -- Whose images they are, and what the storage and the tables have of them afterwards.
  abbrev pub AreShown : Uuid → List Attachment → Stored File → Stored File → Type 0
  AreShown id attachments before after =
      IsNumbered id 0 attachments
      × AreUploads env storage pillow id schema.images attachments before.objects after.objects
      × (length attachments ≡ length schema.images)
      × (image_urls id after.world.db ≡ map (λ att. att.url) attachments)

  -- What the upload and the filing of its attachments leave.
  attach-AreShown :
      (made id : Uuid) (s s' : Stored File)
      → (upload_product_images env storage pillow made schema.images >>= attach made) s
        ≡ (ok id, s')
      → IsBare id s.world.db
      → (made ≡ id)
        × ((attachments : List Attachment) × AreShown id attachments s s')
        × (s'.world.db.products ≡ s.world.db.products)
  unfolding upload_product_images in_world
  attach-AreShown made id s s' h bare =
      let (attachments, s1, uploaded, h1) =
        bind-ok (upload_product_images env storage pillow made schema.images) (attach made) s s' id
          h in
      let (done, s2, added, h2) =
        bind-ok (in_world (add_attachments_to_product env filed_at attachments)) (λ _. pure made) s1
          s' id h1 in
      let same_state : s2 ≡ s' = (unfold pure in ground arith) in
      let (numbered, uploads, long, kept) =
        upload_images-IsNumbered env storage pillow made 0 schema.images s s1 attachments
          uploaded in
      let same_id : made ≡ id = (unfold pure in ground arith) in
      let bare_made : IsBare made s.world.db =
        subst (λ k. IsBare k s.world.db) (sym same_id) bare in
      let still_bare : IsBare made s1.world.db = subst (IsBare made) (sym kept) bare_made in
      let (attached, shown, same_products) =
        image_urls-add_attachments env filed_at made attachments s1.world numbered still_bare in
      let ends : add_attachments_to_product env filed_at attachments s1.world
          ≡ (ok done, s'.world) =
        in_world-ok (add_attachments_to_product env filed_at attachments) s1 s2 done added
        ∙ ap (λ (t : Stored File). (ok done, t.world)) same_state in
      let final_db : (add_attachments_to_product env filed_at attachments s1.world).1.db
          ≡ s'.world.db =
        ap (λ (r : Result (Unit {0}) × World). r.1.db) ends in
      let objects : s1.objects ≡ s'.objects =
        ap (λ (r : Result (Unit {0}) × Stored File). r.1.objects) added
        ∙ ap (λ (t : Stored File). t.objects) same_state in
      (
        same_id,
        (
          attachments,
          subst (λ k. AreShown k attachments s s') same_id
              (
                numbered,
                subst (AreUploads env storage pillow made schema.images attachments s.objects)
                    objects uploads,
                long,
                ap (image_urls made) (sym final_db) ∙ shown,
              ),
        ),
        sym (ap (λ (db : Db). db.products) final_db)
            ∙ (same_products ∙ ap (λ (db : Db). db.products) kept),
      )

  -- Where the handler that makes a product returns, the product is the new last row, with the title
  -- of the form as pydantic reads it, and the catalog shows one image for each file of the form, in
  -- the order of the files: at the address under which the variations of this very file were put in
  -- the storage, which has nothing else new. It holds where no attachment refers to the new
  -- identifier before.
  pub create_product_entrypoint_images :
      (s s' : Stored File) (id : Uuid)
      → create_product_entrypoint forms env storage pillow filed_at schema s ≡ (ok id, s')
      → IsBare id s.world.db
      → (dto : CreateProductDto) × (product : ProductOrm) × (attachments : List Attachment)
        × (forms.product_dto schema ≡ ok dto)
        × (product.id ≡ id)
        × (product.title ≡ dto.title)
        × (s'.world.db.products ≡ s.world.db.products ++ product ∷ [])
        × AreShown id attachments s s'
  unfolding create_product_entrypoint in_world
  create_product_entrypoint_images s s' id h bare =
      let (dto, s1, read, h1) =
        bind-ok (lift (forms.product_dto schema))
          (λ dto. in_world (create_product env filed_at dto) >>= λ id.
            upload_product_images env storage pillow id schema.images >>= λ attachments.
            attach id attachments)
          s s' id h in
      let (made, s2, filed, h2) =
        bind-ok (in_world (create_product env filed_at dto))
          (λ id. upload_product_images env storage pillow id schema.images >>= λ attachments.
            attach id attachments)
          s1 s' id h1 in
      let start : s1 ≡ s = (unfold lift in ground arith) in
      let read_dto : forms.product_dto schema ≡ ok dto = (unfold lift in ground arith) in
      let (product, category, known, has_id, has_title, d, p, c, products, same_attachments) =
        create_product-IsFiled env filed_at dto s1.world s2.world made
          (in_world-ok (create_product env filed_at dto) s1 s2 made filed) in
      let objects : s2.objects ≡ s.objects =
        sym (ap (λ (r : Result Uuid × Stored File). r.1.objects) filed)
        ∙ ap (λ (t : Stored File). t.objects) start in
      let still_bare : IsBare id s2.world.db =
        subst (λ l. All (λ (att : AttachmentOrm). (att.product_id == id) ≡ false) l)
          (sym (same_attachments ∙ ap (λ (t : Stored File). t.world.db.attachments) start)) bare in
      let (same_id, seen, same_products) = attach-AreShown made id s2 s' h2 still_bare in
      let attachments = seen.0 in
      let (numbered, uploads, long, shown) = seen.1 in
      (
        dto,
        product,
        attachments,
        read_dto,
        has_id ∙ same_id,
        has_title,
        same_products
            ∙ (products ∙ ap (λ (t : Stored File). t.world.db.products ++ product ∷ []) start),
        (
          numbered,
          subst (λ l. AreUploads env storage pillow id schema.images attachments l s'.objects)
              objects uploads,
          long,
          shown,
        ),
      )
