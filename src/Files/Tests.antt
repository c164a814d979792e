-- ===== src/Files/Tests.antt =====
-- Tests of the images, and an instance of the theorem about their sizes.
use fast_api_example.Prelude.{ℕ, ◌*◌, ◌/◌, String, ◌≡◌, refl, List, [], ◌∷◌, arith}
use native.Mathlib.Nat.{div-mul-le_self, mul-le-mul_right, mul_comm, le_of_mul-le-mul_right}
use fast_api_example.App.{ok}
use fast_api_example.Files.{Image, Pillow, image_sized_breakpoints, compress_and_resize}
use fast_api_example.Files.Sizes.{IsScaling, IsResizing, Fits, compress_and_resize_sizes}

-- Files are sizes, and the scaling is exact.
abbrev pillow : Pillow (ℕ × ℕ) (Unit {0})
pillow = record {
  open_image = λ size. ok (record { width = size.0; height = size.1; pixels = tt });
  resize = λ img width height. ok (record { width = width; height = height; pixels = tt });
  save_webp = λ img. ok (img.width, img.height);
  scaled = λ a b limit. a * limit / b;
}

pillow-IsScaling : IsScaling pillow
pillow-IsScaling a b limit le positive =
    le_of_mul-le-mul_right {k = b}
      (omega (arith, div-mul-le_self (a * limit) b, mul-le-mul_right limit le, mul_comm b limit))
      (omega arith)

pillow-IsResizing : IsResizing pillow
pillow-IsResizing img small width height made = ground arith

abbrev photo_files : List (String × (ℕ × ℕ))
photo_files =
    ("a_xs.webp", (40, 20))
    ∷ ("a_s.webp", (96, 48))
    ∷ ("a_m.webp", (360, 180))
    ∷ ("a_l.webp", (630, 315))
    ∷ ("a_xl.webp", (1000, 500))
    ∷ []

photo_compressed : compress_and_resize pillow (1000, 500) "a" ≡ ok photo_files
unfolding compress_and_resize
photo_compressed = refl

compress_and_resize_sizes_example :
    (img : Image (Unit {0})) × (pillow.open_image (1000, 500) ≡ ok img)
    × Fits pillow "a" img image_sized_breakpoints photo_files
compress_and_resize_sizes_example =
    compress_and_resize_sizes pillow pillow-IsScaling pillow-IsResizing (1000, 500) "a" photo_files
      photo_compressed
