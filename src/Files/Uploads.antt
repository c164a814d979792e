-- ===== src/Files/Uploads.antt =====
-- What `upload_product_images` (src/services/file_manager/service.py) leaves.
use fast_api_example.Prelude.{
  length, sym, ◌∙◌, append-nil, append_assoc, Option-cases, ℕ, suc, ◌+◌, String, str_append, ◌≡◌,
  refl, ap, inl, inr, List, [], ◌∷◌, ◌++◌, arith,
}
use mathlib.Core.Path.{subst}
use fast_api_example.Database.{Uuid}
use fast_api_example.App.{Env, ok, draw, Result-cases, bind-ok, pure, ◌>>=◌}
use fast_api_example.Catalog.Products.{Attachment}
use fast_api_example.Catalog.Products.Pictures.{IsNumbered}
use fast_api_example.Files.{
  Pillow, Storage, Stored, compress_and_resize, upload_file, upload_variations, upload_image,
  upload_images, in_world, key_prefix_of, url_of,
}

module _ {File Pixels : Type 0} (env : Env) (storage : Storage) (pillow : Pillow File Pixels) where
  upload_variations-world :
      (prefix : String) (files : List (String × File)) (s : Stored File)
      → (upload_variations env storage pillow prefix files s).1.world ≡ s.world
  unfolding upload_variations upload_file ◌>>=◌
  upload_variations-world prefix [] s = refl
  upload_variations-world prefix ((title, file) ∷ rest) s =
      let key = str_append prefix (str_append "/" title) in
      ground (
        arith,
        upload_variations-world prefix rest (record s { objects = s.objects ++ (key, file) ∷ [] }),
      )

  -- The number of an image's attachment, and what its upload leaves as it was.
  upload_image-kept :
      (product_id : Uuid) (index : ℕ) (image : File) (s s' : Stored File) (made : Attachment)
      → upload_image env storage pillow product_id index image s ≡ (ok made, s')
      → (made.product_id ≡ product_id)
        × (made.type ≡ "IMAGE")
        × (made.index ≡ index)
        × (s'.world.db ≡ s.world.db)
  unfolding upload_image in_world draw ◌>>=◌
  upload_image-kept product_id index image s s' made h =
      elim (Result-cases
        (compress_and_resize pillow image (storage.uuid_text (env.uuid4 s.world.drawn)))) [
          | inr (e, failed) ↦ absurd (ground arith)
          | inl (files, compressed) ↦
              (let key_prefix = key_prefix_of env storage pillow product_id in
                let s1 = record s { world = record s.world { drawn = s.world.drawn + 1 } } in
                ground (arith, upload_variations-world key_prefix files s1))
        ]

  -- The objects of a file's variations, as they are put under the product's prefix.
  abbrev pub objects_of : Uuid → List (String × File) → List (String × File)
  objects_of product_id [] = []
  objects_of product_id ((title, file) ∷ files) =
      (
        str_append (str_append "products/" (storage.uuid_text product_id)) (str_append "/" title),
        file,
      )
      ∷ objects_of product_id files

  -- The attachment of an image: its address is that of the identifier under which the image's
  -- variations were made, and these are what was put in the storage for it.
  abbrev pub IsUploadOf :
      Uuid → File → Attachment → List (String × File) → List (String × File) → Type 0
  IsUploadOf product_id image attachment before after =
      (identifier : String) × (files : List (String × File)) × (compress_and_resize pillow image
          identifier
        ≡ ok files)
      × (attachment.url
          ≡ str_append storage.public_url (
              str_append "/" (
                str_append (str_append "products/" (storage.uuid_text product_id))
                  (str_append "/" identifier))))
      × (after ≡ before ++ objects_of product_id files)

  -- Each image has its attachment, in the order of the images, and its objects.
  abbrev pub AreUploads :
      Uuid → List File → List Attachment → List (String × File) → List (String × File) → Type 0
  AreUploads product_id [] [] before after = after ≡ before
  AreUploads product_id (image ∷ images) (attachment ∷ attachments) before after =
      (between : List (String × File)) × IsUploadOf product_id image attachment before between
      × AreUploads product_id images attachments between after
  AreUploads product_id _ _ before after = ⊥

  upload_file-objects :
      (key : String) (file : File) (s s' : Stored File) (u : Unit {0})
      → upload_file env storage pillow key file s ≡ (ok u, s')
      → s'.objects ≡ s.objects ++ (key, file) ∷ []
  unfolding upload_file
  upload_file-objects key file s s' u h = elim (Option-cases (storage.put_object key)) [
    | inl fine ↦ ground arith
    | inr (reason, refused) ↦ absurd (ground arith)
  ]

  upload_variations-objects :
      (product_id : Uuid) (files : List (String × File)) (s s' : Stored File)
      → upload_variations env storage pillow (key_prefix_of env storage pillow product_id) files s
        ≡ (ok tt, s')
      → s'.objects ≡ s.objects ++ objects_of product_id files
  unfolding upload_variations upload_file key_prefix_of ◌>>=◌
  upload_variations-objects product_id [] s s' h =
      let same : s ≡ s' = (unfold pure in ground arith) in
      ap (λ (t : Stored File). t.objects) (sym same) ∙ sym (append-nil s.objects)
  upload_variations-objects product_id ((title, file) ∷ files) s s' h =
      let prefix = key_prefix_of env storage pillow product_id in
      let key = str_append prefix (str_append "/" title) in
      let (u, s1, put, h1) =
        bind-ok (upload_file env storage pillow key file)
          (λ _. upload_variations env storage pillow prefix files) s s' tt h in
      let added : s1.objects ≡ s.objects ++ (key, file) ∷ [] =
        upload_file-objects key file s s1 u put in
      upload_variations-objects product_id files s1 s' h1
      ∙ (ap (λ l. l ++ objects_of product_id files) added
          ∙ append_assoc s.objects ((key, file) ∷ []) (objects_of product_id files))

  upload_image-IsUploadOf :
      (product_id : Uuid) (index : ℕ) (image : File) (s s' : Stored File) (made : Attachment)
      → upload_image env storage pillow product_id index image s ≡ (ok made, s')
      → IsUploadOf product_id image made s.objects s'.objects
  unfolding upload_image in_world draw url_of key_prefix_of ◌>>=◌
  upload_image-IsUploadOf product_id index image s s' made h =
      let identifier = storage.uuid_text (env.uuid4 s.world.drawn) in
      let prefix = key_prefix_of env storage pillow product_id in
      let s1 = record s { world = record s.world { drawn = s.world.drawn + 1 } } in
      elim (Result-cases (compress_and_resize pillow image identifier)) [
        | inr (e, failed) ↦ absurd (ground arith)
        | inl (files, compressed) ↦
            (elim (Result-cases (upload_variations env storage pillow prefix files s1).0) [
              | inr (e, refused) ↦ absurd (ground arith)
              | inl (u, fine) ↦
                  (let s2 = (upload_variations env storage pillow prefix files s1).1 in
                    let same : s2 ≡ s' = ground arith in
                    (
                      identifier,
                      files,
                      compressed,
                      ground arith,
                      ap (λ (t : Stored File). t.objects) (sym same)
                          ∙ upload_variations-objects product_id files s1 s2
                              (ap (λ r. (r, s2)) fine),
                    ))
            ])
      ]

  -- The attachments of an upload are those of the files, in their order, images of the product, and
  -- numbered; the tables are as they were.
  pub upload_images-IsNumbered :
      (product_id : Uuid) (index : ℕ) (images : List File) (s s' : Stored File)
      (made : List Attachment)
      → upload_images env storage pillow product_id index images s ≡ (ok made, s')
      → IsNumbered product_id index made
        × AreUploads product_id images made s.objects s'.objects
        × (length made ≡ length images)
        × (s'.world.db ≡ s.world.db)
  unfolding upload_images ◌>>=◌
  upload_images-IsNumbered product_id index [] s s' made h =
      let none_made : [] ≡ made = ground arith in
      (
        subst (IsNumbered product_id index) none_made tt,
        subst (λ l. AreUploads product_id [] l s.objects s'.objects) none_made (ground arith),
        rw (← none_made) refl,
        ground arith,
      )
  upload_images-IsNumbered product_id index (image ∷ images) s s' made h =
      let (attachment, s1, e1, h1) =
        bind-ok (upload_image env storage pillow product_id index image)
          (λ attachment. upload_images env storage pillow product_id (suc index) images >>= λ rest.
            pure (attachment ∷ rest))
          s s' made h in
      let (rest, s2, e2, h2) =
        bind-ok (upload_images env storage pillow product_id (suc index) images)
          (λ rest. pure (attachment ∷ rest)) s1 s' made h1 in
      let (same_product, image_type, numbered, kept) =
        upload_image-kept product_id index image s s1 attachment e1 in
      let (others, uploads, long, same) =
        upload_images-IsNumbered product_id (suc index) images s1 s2 rest e2 in
      let all_made : attachment ∷ rest ≡ made = ground arith in
      let last : s2 ≡ s' = (unfold pure in ground arith) in
      (
        subst (IsNumbered product_id index) all_made (same_product, image_type, numbered, others),
        subst (λ l. AreUploads product_id (image ∷ images) l s.objects s'.objects) all_made
            (
              s1.objects,
              upload_image-IsUploadOf product_id index image s s1 attachment e1,
              subst (λ (t : Stored File). AreUploads product_id images rest s1.objects t.objects)
                  last uploads,
            ),
        rw (← all_made) (ap suc long),
        ground arith,
      )
