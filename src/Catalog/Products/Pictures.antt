-- ===== src/Catalog/Products/Pictures.antt =====
-- The pictures of a product, from `add_attachments_to_product` to the reads of the catalog.
use fast_api_example.Prelude.{
  ◌==◌, length, filter, All, ℕ, suc, ◌+◌, ◌<◌, ◌≡◌, refl, ap, ◌∙◌, Bool, false, ◌&&◌, some, List,
  [], ◌∷◌, ◌++◌, map, arith, str_eq, eq_iff,
}
use fast_api_example.Database.{Uuid, Instant, Db, AttachmentOrm}
use fast_api_example.App.{Env, World, ok, draw, new_base, ◌>>=◌}
use fast_api_example.Catalog.Images.{insert_attachment, attachments_by_index, image_urls}
use fast_api_example.Catalog.Products.{Attachment, attachment_rows, add_attachments_to_product}

-- Images of one product, numbered in order from this number on.
abbrev pub IsNumbered : Uuid → ℕ → List Attachment → Type 0
IsNumbered product_id n [] = Unit
IsNumbered product_id n (attachment ∷ attachments) =
    (attachment.product_id ≡ product_id)
    × (attachment.type ≡ "IMAGE")
    × (attachment.index ≡ n)
    × IsNumbered product_id (suc n) attachments

-- The rows of attachments, with the identifiers from the one on that is drawn next.
rows_of : Env → Instant → ℕ → List Attachment → List AttachmentOrm
rows_of env filed_at drawn [] = []
rows_of env filed_at drawn (attachment ∷ attachments) =
    record {
      base = record { id = env.uuid4 drawn; created_at = filed_at; updated_at = some filed_at };
      product_id = attachment.product_id;
      type = attachment.type;
      index = attachment.index;
      url = attachment.url;
    }
    ∷ rows_of env filed_at (drawn + 1) attachments

attachment_rows_lem :
    (env : Env) (filed_at : Instant) (attachments : List Attachment) (w : World)
    → attachment_rows env filed_at attachments w ≡ (
      ok (rows_of env filed_at w.drawn attachments),
      record w { drawn = w.drawn + length attachments },
    )
unfolding attachment_rows rows_of new_base draw ◌>>=◌
attachment_rows_lem env filed_at [] w = ground arith
attachment_rows_lem env filed_at (attachment ∷ attachments) w =
    rw (attachment_rows_lem env filed_at attachments (record w { drawn = w.drawn + 1 }))
      (ground arith)

abbrev is_image_of : Uuid → AttachmentOrm → Bool
is_image_of product_id att = att.product_id == product_id && str_eq att.type "IMAGE"

filter-rows :
    (env : Env) (filed_at : Instant) (product_id drawn n : ℕ) (attachments : List Attachment)
    → IsNumbered product_id n attachments
    → filter (is_image_of product_id) (rows_of env filed_at drawn attachments)
      ≡ rows_of env filed_at drawn attachments
unfolding rows_of
filter-rows env filed_at product_id drawn n [] h = refl
filter-rows env filed_at product_id drawn n (attachment ∷ attachments) (same, image, index, rest) =
    let kept = filter-rows env filed_at product_id (drawn + 1) (suc n) attachments rest in
    ground (arith, eq_iff attachment.type "IMAGE")

-- An attachment whose index is no larger than the first goes to the front.
insert-front :
    (env : Env) (filed_at : Instant) (product_id drawn n : ℕ) (attachments : List Attachment)
    (att : AttachmentOrm)
    → att.index < n
    → IsNumbered product_id n attachments
    → insert_attachment att (rows_of env filed_at drawn attachments)
      ≡ att ∷ rows_of env filed_at drawn attachments
unfolding rows_of insert_attachment
insert-front env filed_at product_id drawn n [] att below h = refl
insert-front env filed_at product_id drawn n (attachment ∷ attachments) att below
      (same, image, index, rest) =
    ground arith

by_index-rows :
    (env : Env) (filed_at : Instant) (product_id drawn n : ℕ) (attachments : List Attachment)
    → IsNumbered product_id n attachments
    → attachments_by_index (rows_of env filed_at drawn attachments)
      ≡ rows_of env filed_at drawn attachments
unfolding rows_of attachments_by_index
by_index-rows env filed_at product_id drawn n [] h = refl
by_index-rows env filed_at product_id drawn n (attachment ∷ attachments)
      (same, image, index, rest) =
    rw (by_index-rows env filed_at product_id (drawn + 1) (suc n) attachments rest)
      (insert-front env filed_at product_id (drawn + 1) (suc n) attachments _ (omega arith) rest)

urls-rows :
    (env : Env) (filed_at : Instant) (drawn : ℕ) (attachments : List Attachment)
    → map (λ att. att.url) (rows_of env filed_at drawn attachments)
      ≡ map (λ att. att.url) attachments
unfolding rows_of
urls-rows env filed_at drawn [] = refl
urls-rows env filed_at drawn (attachment ∷ attachments) =
    rw (urls-rows env filed_at (drawn + 1) attachments) refl

filter-none :
    (p : AttachmentOrm → Bool) (xs ys : List AttachmentOrm)
    → All (λ x. p x ≡ false) xs
    → filter p (xs ++ ys) ≡ filter p ys
filter-none p [] ys h = refl
filter-none p (x ∷ xs) ys h = rw h.0 (filter-none p xs ys h.1)

-- The product has no attachment yet.
abbrev pub IsBare : Uuid → Db → Type 0
IsBare product_id db = All (λ att. (att.product_id == product_id) ≡ false) db.attachments

bare-other :
    (product_id : Uuid) (rows : List AttachmentOrm)
    → All (λ att. (att.product_id == product_id) ≡ false) rows
    → All (λ att. is_image_of product_id att ≡ false) rows
bare-other product_id [] h = tt
bare-other product_id (row ∷ rows) h = (rw h.0 refl, bare-other product_id rows h.1)

-- Images that are numbered in order and filed for a product without attachments are read back in
-- this order.
pub image_urls-add_attachments :
    (env : Env) (filed_at : Instant) (product_id : Uuid) (attachments : List Attachment) (w : World)
    → IsNumbered product_id 0 attachments
    → IsBare product_id w.db
    → let (r, w') = add_attachments_to_product env filed_at attachments w in
      (r ≡ ok tt)
      × (image_urls product_id w'.db ≡ map (λ att. att.url) attachments)
      × (w'.db.products ≡ w.db.products)
unfolding add_attachments_to_product ◌>>=◌ image_urls
image_urls-add_attachments env filed_at product_id attachments w numbered bare =
    let rows = rows_of env filed_at w.drawn attachments in
    let found : filter (is_image_of product_id) (w.db.attachments ++ rows) ≡ rows =
      filter-none _ w.db.attachments rows (bare-other product_id w.db.attachments bare)
      ∙ filter-rows env filed_at product_id w.drawn 0 attachments numbered in
    rw (attachment_rows_lem env filed_at attachments w) (
      refl,
      ap (λ l. map (λ (att : AttachmentOrm). att.url) (attachments_by_index l)) found
          ∙ (ap (map (λ (att : AttachmentOrm). att.url))
                (by_index-rows env filed_at product_id w.drawn 0 attachments numbered)
              ∙ urls-rows env filed_at w.drawn attachments),
      refl,
    )
