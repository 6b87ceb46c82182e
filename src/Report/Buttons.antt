-- ===== src/Report/Buttons.antt =====
-- protocol.rs: the button mask, seen as the set of buttons held down.
use easycon_sdk.Common.{
  ℕ, ◌-◌, ◌^◌, ◌≤◌, ◌<◌, ◌≡◌, refl, Bool, not, ◌&&◌, ◌||◌, ◌==◌, if◌then◌else◌, arith,
}
use easycon_sdk.Common.Bits.{
  bit_at, bit_at_bound, bit_at-bit_or, bit_at-bit_and, bit_at-two_pow, bit_at-complement, bit_or-lt,
  bit_and-le,
}
use easycon_sdk.Model.Controller.{Button, mask}
use easycon_sdk.Report.{SwitchReport, press, release}

-- The place of a button's bit, in source declaration order.
abbrev pub bit_of : Button → ℕ
bit_of Button.y = 0
bit_of Button.b = 1
bit_of Button.a = 2
bit_of Button.x = 3
bit_of Button.l = 4
bit_of Button.r = 5
bit_of Button.zl = 6
bit_of Button.zr = 7
bit_of Button.minus = 8
bit_of Button.plus = 9
bit_of Button.l_click = 10
bit_of Button.r_click = 11
bit_of Button.home = 12
bit_of Button.capture = 13

abbrev pub same_button : Button → Button → Bool
same_button j k = bit_of j == bit_of k

-- Whether a button is held in a report.
abbrev pub is_down : SwitchReport → Button → Bool
is_down s k = bit_at (bit_of k) s.buttons == 1

mask-two_pow : (k : Button) → mask k ≡ 2 ^ bit_of k
unfolding mask
mask-two_pow Button.y = refl
mask-two_pow _ = refl

bit_of-lt : (k : Button) → bit_of k < 14
bit_of-lt Button.y = omega arith
bit_of-lt _ = omega arith

mask-lt : (k : Button) → mask k < 2 ^ 14
unfolding mask
mask-lt Button.y = omega arith
mask-lt _ = omega arith

bit_at-mask : (k j : Button) → bit_at (bit_of j) (mask k) ≡ (if same_button k j then 1 else 0)
bit_at-mask k j = rw (mask-two_pow k) (bit_at-two_pow (bit_of j) (bit_of k))

bit_at-not_mask :
    (k j : Button) → bit_at (bit_of j) (65535 - mask k) ≡ (if same_button k j then 0 else 1)
bit_at-not_mask k j = ground (
  arith,
  bit_at-complement 16 (bit_of j) (mask k) (omega (arith, mask-lt k)) (omega (arith, bit_of-lt j)),
  bit_at-mask k j,
)

-- Pressing a button holds it down and changes no other button.
pub is_down-press :
    (s : SwitchReport) (k j : Button) → is_down (press s k) j ≡ (same_button k j || is_down s j)
unfolding press
is_down-press s k j = ground (
  arith,
  bit_at-bit_or (bit_of j) s.buttons (mask k),
  bit_at-mask k j,
  bit_at_bound (bit_of j) s.buttons,
)

-- Releasing a button lets it up and changes no other button.
pub is_down-release :
    (s : SwitchReport) (k j : Button)
    → is_down (release s k) j ≡ (not (same_button k j) && is_down s j)
unfolding release
is_down-release s k j = ground (
  arith,
  bit_at-bit_and (bit_of j) s.buttons (65535 - mask k),
  bit_at-not_mask k j,
  bit_at_bound (bit_of j) s.buttons,
)

pub press-lt : (s : SwitchReport) (k : Button) → s.buttons < 2 ^ 14 → (press s k).buttons < 2 ^ 14
unfolding press
press-lt s k h = bit_or-lt 14 s.buttons (mask k) h (mask-lt k)

pub release-le : (s : SwitchReport) (k : Button) → (release s k).buttons ≤ s.buttons
unfolding release
release-le s k = bit_and-le s.buttons s.buttons (65535 - mask k) (omega arith)
