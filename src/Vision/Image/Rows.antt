-- ===== src/Vision/Image/Rows.antt =====
-- image.rs: which layouts are accepted, and that every row of an accepted image is there.
use native.Mathlib.Nat.{mul-le-mul_right}
use easycon_sdk.Common.{
  ℕ, zero, suc, ◌+◌, ◌*◌, ◌^◌, ◌≤◌, ◌<◌, ◌≡◌, ◌↔◌, refl, some, List, [], ◌∷◌, length, take, drop,
  length-take, length-drop, All, arith,
}
use easycon_sdk.Vision.{ok_image}
use easycon_sdk.Vision.Image.{channels, VisionLimits, Image, new_image, row, rows_from, rows}

-- An image inside the limits whose buffer holds all its rows.
pub record IsLaidOut (image : Image) (limits : VisionLimits) : Type 0 where
  pub some_width : 1 ≤ image.width
  pub some_height : 1 ≤ image.height
  pub width_limit : image.width ≤ limits.max_width
  pub height_limit : image.height ≤ limits.max_height
  pub pixel_limit : image.width * image.height ≤ limits.max_pixels
  pub stride_limit : image.stride ≤ limits.max_stride
  pub byte_limit : length image.pixels ≤ limits.max_decoded_bytes
  pub row_fits : image.width * channels image.format ≤ image.stride
  pub rows_fit : image.stride * image.height ≤ length image.pixels

-- With limits and a buffer of 64 bits `Image::new` accepts exactly the layouts that fit the limits and the
-- buffer, none is lost to an overflow.
pub new_image_iff :
    (image : Image) (limits : VisionLimits)
    → limits.max_pixels < 2 ^ 64
    → limits.max_decoded_bytes < 2 ^ 64
    → limits.max_stride < 2 ^ 64
    → (new_image image.pixels image.width image.height image.stride image.format limits
        ≡ ok_image image)
      ↔ IsLaidOut image limits
unfolding new_image
new_image_iff image limits hp hd hs = (λ h. ground arith, λ v. ground arith)

row_end :
    (image : Image) (limits : VisionLimits) (index : ℕ)
    → IsLaidOut image limits
    → index < image.height
    → index * image.stride + image.width * channels image.format ≤ length image.pixels
row_end image limits index v h =
    let above : (index + 1) * image.stride ≤ image.height * image.stride =
      mul-le-mul_right image.stride (omega (arith, h)) in
    let v1 = v.row_fits in let v2 = v.rows_fit in grind arith

-- Every row of an accepted image below its height is there: it is the bytes at the row's place, as many
-- as its pixels take.
pub row-IsLaidOut :
    (image : Image) (limits : VisionLimits) (index : ℕ)
    → IsLaidOut image limits
    → limits.max_decoded_bytes < 2 ^ 64
    → index < image.height
    → (bytes : List ℕ) × (row image index ≡ some bytes)
      × (length bytes ≡ image.width * channels image.format)
unfolding row
row-IsLaidOut image limits index v hd h =
    let fits = row_end image limits index v h in
    let small = v.byte_limit in
    let row_bytes = image.width * channels image.format in
    let start = index * image.stride in
    let bytes = take row_bytes (drop start image.pixels) in
    (
      bytes,
      ground arith,
      omega (
        arith,
        fits,
        length-take row_bytes (drop start image.pixels),
        length-drop start image.pixels,
      ),
    )

-- The rows of an accepted image never panic: there are as many as its height, each of its width.
pub rows-IsLaidOut :
    (image : Image) (limits : VisionLimits)
    → IsLaidOut image limits
    → limits.max_decoded_bytes < 2 ^ 64
    → (all : List (List ℕ)) × (rows image ≡ some all)
      × (length all ≡ image.height)
      × All (λ bytes. length bytes ≡ image.width * channels image.format) all
unfolding rows
rows-IsLaidOut image limits v hd = from 0 image.height (omega arith)
  where
    from :
        (index count : ℕ)
        → index + count ≤ image.height
        → (all : List (List ℕ)) × (rows_from image index count ≡ some all)
          × (length all ≡ count)
          × All (λ bytes. length bytes ≡ image.width * channels image.format) all
    from index zero h = unfold rows_from in ([], refl, refl, tt)
    from index (suc count) h =
        let (bytes, there, wide) = row-IsLaidOut image limits index v hd (omega (arith, h)) in
        let (rest, later, many, all_wide) = from (index + 1) count (omega (arith, h)) in
        unfold rows_from in
        (bytes ∷ rest, rw (there, later) refl, omega (arith, many), (wide, all_wide))
