-- ===== src/Vision/Label/Region/Tests.antt =====
-- label.rs: regions at concrete numbers.
use easycon_sdk.Vision.Image.{Roi}

abbrev screen : Roi
screen = record { x = 10; y = 20; width = 300; height = 200 }

abbrev button : Roi
button = record { x = 200; y = 30; width = 110; height = 20 }
