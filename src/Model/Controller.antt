-- ===== src/Model/Controller.antt =====
-- crates/easycon-model/src/controller.rs: buttons, HAT positions and sticks.
use easycon_sdk.Common.{ℕ, Option, none, some, List, [], ◌∷◌, ◌==◌, if◌then◌else◌}
use easycon_sdk.Model.Error.{EasyConError, Result, ok, err, validation_error}

pub data Button : Type 0 where
  y b a x l r zl zr minus plus l_click r_click home capture : Button

abbrev pub all_buttons : List Button
all_buttons =
    y ∷ b ∷ a ∷ x ∷ l ∷ r ∷ zl ∷ zr ∷ minus ∷ plus ∷ l_click ∷ r_click ∷ home ∷ capture ∷ []

-- `Button::mask`, the discriminants of the enum.
unfoldable pub mask : Button → ℕ
mask y = 0x0001
mask b = 0x0002
mask a = 0x0004
mask x = 0x0008
mask l = 0x0010
mask r = 0x0020
mask zl = 0x0040
mask zr = 0x0080
mask minus = 0x0100
mask plus = 0x0200
mask l_click = 0x0400
mask r_click = 0x0800
mask home = 0x1000
mask capture = 0x2000

pub data Hat : Type 0 where
  top top_right right bottom_right bottom bottom_left left top_left center : Hat

abbrev pub all_hats : List Hat
all_hats =
    top ∷ top_right ∷ right ∷ bottom_right ∷ bottom ∷ bottom_left ∷ left ∷ top_left ∷ center ∷ []

-- `Hat::value`, the discriminants of the enum.
unfoldable pub hat_value : Hat → ℕ
hat_value top = 0
hat_value top_right = 1
hat_value right = 2
hat_value bottom_right = 3
hat_value bottom = 4
hat_value bottom_left = 5
hat_value left = 6
hat_value top_left = 7
hat_value center = 8

-- `Iterator::find` over the positions, by value.
unfoldable pub find_hat : ℕ → List Hat → Option Hat
unfolding hat_value
find_hat v [] = none
find_hat v (h ∷ hs) = if hat_value h == v then some h else find_hat v hs

abbrev ok_or : Option Hat → EasyConError → Result Hat
ok_or none e = err e
ok_or (some h) e = ok h

-- `Hat::try_from`.
unfoldable pub hat_try_from : ℕ → Result Hat
unfolding find_hat
hat_try_from v = ok_or (find_hat v all_hats) (validation_error "HAT value must be in 0..=8")

-- Coordinates are bytes: `x_axis` and `y_axis` are the source's `x` and `y`.
pub record StickPosition : Type 0 where
  pub x_axis : ℕ
  pub y_axis : ℕ

abbrev pub stick_center : StickPosition
stick_center = record { x_axis = 128; y_axis = 128 }
