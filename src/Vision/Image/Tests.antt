-- ===== src/Vision/Image/Tests.antt =====
-- image.rs: the laws of layouts at concrete images.
use easycon_sdk.Common.{◌≡◌, ◌↔◌, replicate, arith}
use easycon_sdk.Vision.{ok_image}
use easycon_sdk.Vision.Image.{bgr8, VisionLimits, Image, new_image}
use easycon_sdk.Vision.Image.Rows.{IsLaidOut, new_image_iff}

abbrev small : VisionLimits
small = record {
  max_encoded_bytes = 1000;
  max_width = 16;
  max_height = 16;
  max_pixels = 100;
  max_decoded_bytes = 400;
  max_stride = 60;
}

-- Two rows of three pixels, padded to ten bytes.
abbrev padded : Image
padded = record { pixels = replicate 20 7; width = 3; height = 2; stride = 10; format = bgr8 }

new_image_iff_example :
    (new_image padded.pixels 3 2 10 bgr8 small ≡ ok_image padded) ↔ IsLaidOut padded small
new_image_iff_example = new_image_iff padded small (omega arith) (omega arith) (omega arith)

padded-IsLaidOut : IsLaidOut padded small
padded-IsLaidOut = ground arith
