-- ===== src/Report/Actions.antt =====
-- session.rs, `ControllerAction`, and what a run of actions does to each input.
use easycon_sdk.Common.{
  ◌^◌, ◌<◌, ◌≡◌, refl, ◌↔◌, Bool, true, false, List, [], ◌∷◌, arith, if◌then◌else◌, All, some,
}
use easycon_sdk.Model.Controller.{Button, Hat, StickPosition}
use easycon_sdk.Report.{
  SwitchReport, neutral, encode, press, release, set_hat, set_left_stick, set_right_stick, reset,
  is_neutral,
}
use easycon_sdk.Report.Buttons.{
  is_down, same_button, is_down-press, is_down-release, press-lt, release-le,
}
use easycon_sdk.Report.RoundTrip.{IsReport, decode, decode-encode}
use mathlib.Core.Option

pub data ControllerAction : Type 0 where
  button_down button_up : Button → ControllerAction
  hat : Hat → ControllerAction
  left_stick right_stick : StickPosition → ControllerAction
  reset_all : ControllerAction

-- `ControllerAction::apply`.
unfoldable pub apply : ControllerAction → SwitchReport → SwitchReport
apply (button_down k) s = press s k
apply (button_up k) s = release s k
apply (hat h) s = set_hat s h
apply (left_stick p) s = set_left_stick s p
apply (right_stick p) s = set_right_stick s p
apply reset_all s = reset s

unfoldable pub apply_all : List ControllerAction → SwitchReport → SwitchReport
apply_all [] s = s
apply_all (c ∷ cs) s = apply_all cs (apply c s)

-- What one action says of one button: the last action that names it, or a reset, decides.
abbrev pub button_after : Button → ControllerAction → Bool → Bool
button_after k (button_down j) before = if same_button j k then true else before
button_after k (button_up j) before = if same_button j k then false else before
button_after k reset_all before = false
button_after k _ before = before

abbrev pub button_after_all : Button → List ControllerAction → Bool → Bool
button_after_all k [] before = before
button_after_all k (c ∷ cs) before = button_after_all k cs (button_after k c before)

is_down-neutral : (k : Button) → is_down neutral k ≡ false
is_down-neutral Button.y = refl
is_down-neutral _ = refl

is_down-apply :
    (c : ControllerAction) (s : SwitchReport) (k : Button)
    → is_down (apply c s) k ≡ button_after k c (is_down s k)
unfolding apply set_hat set_left_stick set_right_stick reset
is_down-apply (button_down j) s k = ground (arith, is_down-press s j k)
is_down-apply (button_up j) s k = ground (arith, is_down-release s j k)
is_down-apply (hat h) s k = refl
is_down-apply (left_stick p) s k = refl
is_down-apply (right_stick p) s k = refl
is_down-apply reset_all s k = is_down-neutral k

-- After any actions a button is held as the last action on it, or the last reset, left it.
pub is_down-apply_all :
    (cs : List ControllerAction) (s : SwitchReport) (k : Button)
    → is_down (apply_all cs s) k ≡ button_after_all k cs (is_down s k)
unfolding apply_all
is_down-apply_all [] s k = refl
is_down-apply_all (c ∷ cs) s k = rw (is_down-apply_all cs (apply c s) k, is_down-apply c s k)

-- The coordinates that an action carries are bytes.
abbrev pub InRange : StickPosition → Type 0
InRange p = (p.x_axis < 256) × (p.y_axis < 256)

abbrev pub IsAction : ControllerAction → Type 0
IsAction (left_stick p) = InRange p
IsAction (right_stick p) = InRange p
IsAction _ = Unit {0}

-- A report that only the fourteen buttons of v1 can have built.
pub record IsReachable (s : SwitchReport) : Type 0 where
  pub buttons_known : s.buttons < 2 ^ 14
  pub left_fits : InRange s.left_stick
  pub right_fits : InRange s.right_stick

pub neutral-IsReachable : IsReachable neutral
neutral-IsReachable = omega arith

apply-IsReachable :
    (c : ControllerAction) (s : SwitchReport) → IsAction c → IsReachable s → IsReachable (apply c s)
unfolding apply press release set_hat set_left_stick set_right_stick reset
apply-IsReachable (button_down k) s h v = omega (arith, press-lt s k)
apply-IsReachable (button_up k) s h v = omega (arith, release-le s k)
apply-IsReachable (hat p) s h v = omega arith
apply-IsReachable (left_stick p) s h v = omega arith
apply-IsReachable (right_stick p) s h v = omega arith
apply-IsReachable reset_all s h v = neutral-IsReachable

-- Actions whose coordinates are bytes keep a report within the source's types, with no button but
-- those of v1.
pub apply_all-IsReachable :
    (cs : List ControllerAction) (s : SwitchReport)
    → All IsAction cs
    → IsReachable s
    → IsReachable (apply_all cs s)
unfolding apply_all
apply_all-IsReachable [] s hs v = v
apply_all-IsReachable (c ∷ cs) s hs v =
    apply_all-IsReachable cs (apply c s) hs.1 (apply-IsReachable c s hs.0 v)

pub IsReachable-IsReport : (s : SwitchReport) → IsReachable s → IsReport s
IsReachable-IsReport s v = omega arith

-- A receiver that reads the packet sent after any actions on the neutral report, their coordinates
-- bytes, holds exactly the buttons that the actions leave held.
pub received_buttons :
    (cs : List ControllerAction) (k : Button)
    → All IsAction cs
    → Option.map (λ s. is_down s k) (decode (encode (apply_all cs neutral)))
      ≡ some (button_after_all k cs false)
received_buttons cs k hs =
    let valid = IsReachable-IsReport _ (apply_all-IsReachable cs neutral hs neutral-IsReachable) in
    rw (
      decode-encode (apply_all cs neutral) valid,
      is_down-apply_all cs neutral k,
      is_down-neutral k,
    )

-- `is_neutral` holds of the neutral report and of no other.
pub is_neutral_iff : (s : SwitchReport) → (is_neutral s ≡ true) ↔ (s ≡ neutral)
unfolding is_neutral
is_neutral_iff s = (ground arith, ground arith)
