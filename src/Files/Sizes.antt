-- ===== src/Files/Sizes.antt =====
-- The sizes of the images that `compress_and_resize` (src/services/file_manager/utils.py) makes.
use fast_api_example.Prelude.{
  ltb, Bool-cases, ℕ, ◌≤◌, String, str_append, ◌≡◌, refl, ◌≢◌, inl, inr, List, [], ◌∷◌, arith,
}
use mathlib.Core.Path.{subst}
use fast_api_example.App.{ok, and_then-ok}
use fast_api_example.Files.{
  Image, Pillow, image_sized_breakpoints, scaled_side, max_size, new_size, resized, variations,
  compress_and_resize,
}

module _ {File Pixels : Type 0} (pillow : Pillow File Pixels) where
  -- A ratio of at most one, times the limit, is at most the limit.
  abbrev pub IsScaling : Type 0
  IsScaling = (a b limit : ℕ) → a ≤ b → b ≢ 0 → pillow.scaled a b limit ≤ limit

  -- A resized image has the size that was asked for.
  abbrev pub IsResizing : Type 0
  IsResizing =
      (img small : Image Pixels) (width height : ℕ)
      → pillow.resize img width height ≡ ok small
      → (small.width ≡ width) × (small.height ≡ height)

  abbrev pub IsWithin : ℕ → Image Pixels → Type 0
  IsWithin limit img = (img.width ≤ limit) × (img.height ≤ limit)

  new_size-le :
      IsScaling
      → (limit : ℕ) (img : Image Pixels) (size : ℕ × ℕ) → new_size pillow limit img ≡ ok size
      → (size.0 ≤ limit) × (size.1 ≤ limit)
  unfolding new_size scaled_side
  new_size-le scaling limit img size h =
      ground (arith, scaling img.height img.width limit, scaling img.width img.height limit)

  -- An image made for a breakpoint is within it, and an image that is within it stays as it is.
  pub resized_lem :
      IsScaling
      → IsResizing
      → (limit : ℕ) (img small : Image Pixels) → resized pillow limit img ≡ ok small
      → IsWithin limit small × (IsWithin limit img → small ≡ img)
  unfolding resized max_size
  resized_lem scaling resizing limit img small h =
      let (size, made, last) = and_then-ok (new_size pillow limit img) _ small h in
      let (wide, high) = new_size-le scaling limit img size made in
      elim (Bool-cases (ltb limit (max_size pillow img))) [
        | inl large ↦
            (let (same_width, same_height) = resizing img small size.0 size.1 (rw large at last) in
              ((omega arith, omega arith), λ within. absurd (ground arith)))
        | inr fits ↦
            (let same : small ≡ img = (let e = rw fits at last in ground arith) in
              (rw same (ground arith), λ within. same))
      ]

  -- The files are named after the breakpoints, in their order, and each holds an image that is
  -- within its breakpoint; an image that is within it already is saved as it is.
  abbrev pub Fits : String → Image Pixels → List (String × ℕ) → List (String × File) → Type 0
  Fits identifier img [] [] = Unit
  Fits identifier img [] (file ∷ files) = ⊥
  Fits identifier img (breakpoint ∷ breakpoints) [] = ⊥
  Fits identifier img ((postfix, limit) ∷ breakpoints) ((title, file) ∷ files) =
      (title ≡ str_append identifier (str_append "_" (str_append postfix ".webp")))
      × ((small : Image Pixels) × (pillow.save_webp small ≡ ok file)
          × IsWithin limit small
          × (IsWithin limit img → small ≡ img))
      × Fits identifier img breakpoints files

  variations-Fits :
      IsScaling
      → IsResizing
      → (identifier : String) (img : Image Pixels) (breakpoints : List (String × ℕ))
        (files : List (String × File))
      → variations pillow identifier img breakpoints ≡ ok files
      → Fits identifier img breakpoints files
  unfolding variations
  variations-Fits scaling resizing identifier img [] files h =
      let same : [] ≡ files = ground arith in subst (Fits identifier img []) same tt
  variations-Fits scaling resizing identifier img ((postfix, limit) ∷ breakpoints) files h =
      let (small, made, h1) = and_then-ok (resized pillow limit img) _ files h in
      let (file, saved, h2) = and_then-ok (pillow.save_webp small) _ files h1 in
      let (rest, others, h3) =
        and_then-ok (variations pillow identifier img breakpoints) _ files h2 in
      let title = str_append identifier (str_append "_" (str_append postfix ".webp")) in
      let same : (title, file) ∷ rest ≡ files = ground arith in
      let (within, kept) = resized_lem scaling resizing limit img small made in
      subst (Fits identifier img ((postfix, limit) ∷ breakpoints)) same (
        refl,
        (small, saved, within, kept),
        variations-Fits scaling resizing identifier img breakpoints rest others,
      )

  -- Where compress_and_resize returns, it makes one file for each breakpoint, named after the
  -- identifier and the breakpoint, with an image whose sides are at most the breakpoint's limit;
  -- an image that is no larger is saved as it is. It holds where the library resizes to the size
  -- that it is asked for, and a ratio of at most one times the limit is at most the limit.
  pub compress_and_resize_sizes :
      IsScaling
      → IsResizing
      → (file : File) (identifier : String) (files : List (String × File))
      → compress_and_resize pillow file identifier ≡ ok files
      → (img : Image Pixels) × (pillow.open_image file ≡ ok img)
        × Fits identifier img image_sized_breakpoints files
  unfolding compress_and_resize
  compress_and_resize_sizes scaling resizing file identifier files h =
      let (img, opened, made) = and_then-ok (pillow.open_image file) _ files h in
      (
        img,
        opened,
        variations-Fits scaling resizing identifier img image_sized_breakpoints files made,
      )
