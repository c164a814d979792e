-- ===== src/Catalog/Images.antt =====
-- The images of a product: `ProductORM.attachments` of src/database/models.py, which is ordered,
-- and `get_attachment_urls_by_type` of src/services/catalog/utils.py.
use fast_api_example.Prelude.{
  leb, ◌==◌, if◌then◌else◌, filter, String, ◌&&◌, List, [], ◌∷◌, map, str_eq,
}
use fast_api_example.Database.{Uuid, Db, AttachmentOrm}

-- The order of the attachments of one product and one type: by their indexes.
unfoldable pub insert_attachment : AttachmentOrm → List AttachmentOrm → List AttachmentOrm
insert_attachment att [] = att ∷ []
insert_attachment att (other ∷ rest) =
    let inserted = insert_attachment att rest in
    if leb att.index other.index then att ∷ other ∷ rest else other ∷ inserted

unfoldable pub attachments_by_index : List AttachmentOrm → List AttachmentOrm
unfolding insert_attachment
attachments_by_index [] = []
attachments_by_index (att ∷ rest) = insert_attachment att (attachments_by_index rest)

-- `get_attachment_urls_by_type(product.attachments, AttachmentType.IMAGE)`
unfoldable pub image_urls : Uuid → Db → List String
unfolding attachments_by_index
image_urls product_id db =
    map (λ att. att.url)
      (attachments_by_index
        (filter (λ att. att.product_id == product_id && str_eq att.type "IMAGE") db.attachments))
