-- ===== src/Files.antt =====
-- The images of products: src/services/file_manager and the upload of
-- src/integrations/s3/client.py. The image library and the storage are the parameters `Pillow` and
-- `Storage`.
pub mod Sizes
pub mod Uploads
mod Tests
use fast_api_example.Prelude.{
  ltb, ◌==◌, if◌then◌else◌, ℕ, suc, String, str_append, Option, none, some, List, [], ◌∷◌, ◌++◌,
}
use fast_api_example.Errors.{Exception, raised, make_error, s3_upload_file, other}
use fast_api_example.Database.{Uuid}
use fast_api_example.App.{
  Env, World, Action, Result, ok, err, draw, and_then, ◌>>=◌, ◌>>◌, pure, lift,
}
use fast_api_example.Catalog.Products.{Attachment}

-- `IMAGE_SIZED_BREAKPOINTS`
abbrev pub image_sized_breakpoints : List (String × ℕ)
image_sized_breakpoints = ("xs", 40) ∷ ("s", 96) ∷ ("m", 360) ∷ ("l", 630) ∷ ("xl", 1280) ∷ []

-- An image with its size; `Pixels` is its content.
pub record Image (Pixels : Type 0) : Type 0 where
  pub width : ℕ
  pub height : ℕ
  pub pixels : Pixels

-- What the code calls of Pillow and of floating point: to open a file, to resize an image to a
-- width and a height, to save it, and `int(a / b * limit)`, where `b` is not zero.
pub record Pillow (File Pixels : Type 0) : Type 0 where
  pub open_image : File → Result (Image Pixels)
  pub resize : Image Pixels → ℕ → ℕ → Result (Image Pixels)
  pub save_webp : Image Pixels → Result File
  pub scaled : ℕ → ℕ → ℕ → ℕ

module _ {File Pixels : Type 0} (pillow : Pillow File Pixels) where
  -- `int(aspect_ratio * size_limit)`, with `aspect_ratio = a / b`
  unfoldable pub scaled_side : ℕ → ℕ → ℕ → Result ℕ
  scaled_side a b limit =
      if b == 0 then err (other "ZeroDivisionError") else ok (pillow.scaled a b limit)

  -- `max_size`
  unfoldable pub max_size : Image Pixels → ℕ
  max_size img = if ltb img.height img.width then img.width else img.height

  -- `new_size`
  unfoldable pub new_size : ℕ → Image Pixels → Result (ℕ × ℕ)
  unfolding scaled_side
  new_size limit img =
      if ltb img.height img.width
      then and_then (scaled_side img.height img.width limit) (λ side. ok (limit, side))
      else and_then (scaled_side img.width img.height limit) (λ side. ok (side, limit))

  -- The image of one breakpoint.
  unfoldable pub resized : ℕ → Image Pixels → Result (Image Pixels)
  unfolding new_size max_size
  resized limit img =
      and_then (new_size limit img)
        (λ size. if ltb limit (max_size img) then pillow.resize img size.0 size.1 else ok img)

  -- The loop over the breakpoints.
  unfoldable pub variations :
      String → Image Pixels → List (String × ℕ) → Result (List (String × File))
  unfolding resized
  variations identifier img [] = ok []
  variations identifier img ((postfix, limit) ∷ breakpoints) =
      and_then (resized limit img) (λ small. and_then (pillow.save_webp small) (λ file.
        and_then (variations identifier img breakpoints) (λ rest.
          let title = str_append identifier (str_append "_" (str_append postfix ".webp")) in
          ok ((title, file) ∷ rest))))

  -- `compress_and_resize`, with an identifier.
  unfoldable pub compress_and_resize : File → String → Result (List (String × File))
  unfolding variations
  compress_and_resize file identifier =
      and_then (pillow.open_image file) (λ img. variations identifier img image_sized_breakpoints)

-- The state of a request with the objects that were put in the storage, in order.
pub record Stored (File : Type 0) : Type 0 where
  pub world : World
  pub objects : List (String × File)

-- What `put_object` raises for a key, with its text, the setting `public_url`, and the text of an
-- identifier.
pub record Storage : Type 0 where
  pub put_object : String → Option String
  pub public_url : String
  pub uuid_text : Uuid → String

-- An action on the state of a request, beside the storage.
unfoldable pub in_world : {File A : Type 0} → Action World A → Action (Stored File) A
in_world action s = let (r, w) = action s.world in (r, record s { world = w })

-- `S3UploadFileError(debug=...)`
unfoldable pub upload_error : String → Exception
unfolding make_error
upload_error debug = raised (make_error s3_upload_file none (some debug))

module _ {File Pixels : Type 0} (env : Env) (storage : Storage) (pillow : Pillow File Pixels) where
  -- `S3Client.upload_file`, in the `try` statement around it.
  unfoldable pub upload_file : String → File → Action (Stored File) (Unit {0})
  unfolding upload_error
  upload_file key file s = elim (storage.put_object key) [
    | some reason ↦ (err (upload_error reason), s)
    | none ↦ (ok tt, record s { objects = s.objects ++ (key, file) ∷ [] })
  ]

  -- `for title, file in image_variations.items()`
  unfoldable pub upload_variations : String → List (String × File) → Action (Stored File) (Unit {0})
  unfolding upload_file ◌>>=◌
  upload_variations key_prefix [] = pure tt
  upload_variations key_prefix ((title, file) ∷ rest) = do
    upload_file (str_append key_prefix (str_append "/" title)) file
    upload_variations key_prefix rest

  -- `key_prefix`
  unfoldable pub key_prefix_of : Uuid → String
  key_prefix_of product_id = str_append "products/" (storage.uuid_text product_id)

  -- `url`
  unfoldable pub url_of : String → String → String
  url_of key_prefix identifier =
      str_append storage.public_url
        (str_append "/" (str_append key_prefix (str_append "/" identifier)))

  -- The body of the loop over the images.
  unfoldable pub upload_image : Uuid → ℕ → File → Action (Stored File) Attachment
  unfolding compress_and_resize upload_variations key_prefix_of url_of in_world draw ◌>>=◌
  upload_image product_id index image = do
    drawn ← in_world (draw env)
    let identifier : String = storage.uuid_text drawn
    made ← lift (compress_and_resize pillow image identifier)
    upload_variations (key_prefix_of product_id) made
    pure (record {
      product_id = product_id;
      type = "IMAGE";
      index = index;
      url = url_of (key_prefix_of product_id) identifier;
    })

  -- `for index, image in enumerate(images)`, from this index on.
  unfoldable pub upload_images : Uuid → ℕ → List File → Action (Stored File) (List Attachment)
  unfolding upload_image ◌>>=◌
  upload_images product_id index [] = pure []
  upload_images product_id index (image ∷ images) = do
    attachment ← upload_image product_id index image
    rest ← upload_images product_id (suc index) images
    pure (attachment ∷ rest)

  -- `FileManagerService.upload_product_images`
  unfoldable pub upload_product_images : Uuid → List File → Action (Stored File) (List Attachment)
  unfolding upload_images
  upload_product_images product_id images = upload_images product_id 0 images
