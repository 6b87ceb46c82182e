-- ===== src/Vision/Label/Region/Contained.antt =====
-- label.rs: what a region that was parsed, and one that contains another, promise.
use easycon_sdk.Common.{ℕ, ◌+◌, ◌-◌, leb, ◌&&◌, ◌≤◌, ◌<◌, ◌≡◌, ◌↔◌, Bool, true, some, arith}
use easycon_sdk.Vision.{ok_image}
use easycon_sdk.Vision.Image.{Roi, new_roi}
use easycon_sdk.Vision.Label.Region.{roi_contains}

-- A point of a region.
abbrev pub IsInside : Roi → ℕ → ℕ → Type 0
IsInside roi px py =
    (roi.x ≤ px) × (px < roi.x + roi.width) × (roi.y ≤ py) × (py < roi.y + roi.height)

-- A region that `Roi::new` accepts.
abbrev pub IsRoi : Roi → Type 0
IsRoi roi = new_roi roi.x roi.y roi.width roi.height ≡ ok_image roi

inner-some : (roi : Roi) → IsRoi roi → (1 ≤ roi.width) × (1 ≤ roi.height)
unfolding new_roi
inner-some roi h = ground arith

-- Of two regions that `Roi::new` accepts, `roi_contains` never overflows, and says true exactly if every
-- point of the inner one is a point of the outer one.
pub roi_contains_iff :
    (outer inner : Roi)
    → IsRoi outer
    → IsRoi inner
    → (b : Bool) × (roi_contains outer inner ≡ some b)
      × ((b ≡ true) ↔ ((px py : ℕ) → IsInside inner px py → IsInside outer px py))
unfolding roi_contains new_roi
roi_contains_iff outer inner ho hi =
    let b : Bool =
      leb outer.x inner.x
      && leb outer.y inner.y
      && leb (inner.x + inner.width) (outer.x + outer.width)
      && leb (inner.y + inner.height) (outer.y + outer.height) in
    let (some_width, some_height) = inner-some inner hi in
    (
      b,
      ground arith,
      (
        (λ e px py v. ground arith),
        (λ all.
            let first = all inner.x inner.y (omega (arith, some_width, some_height)) in
            let last =
              all (inner.x + inner.width - 1) (inner.y + inner.height - 1)
                (omega (arith, some_width, some_height)) in
            ground arith),
      ),
    )
