-- ===== src/Tests/Windows.antt =====
-- common/window.py: tests of the tumbling windows, of five seconds.
use csdlpt.Prelude.{◌≡◌, refl, arith, floor_to, pos, negsuc}
use csdlpt.Common.Window.{window_start, windows_between}
use csdlpt.Common.Window.Range.{Covers, windows_between-Covers}

windows_between-Covers_example :
    Covers 5000 (pos 11000) (windows_between 5000 (pos 3000) (pos 12000))
windows_between-Covers_example =
    windows_between-Covers 5000 (pos 3000) (pos 12000) (pos 11000) (omega arith) (omega arith)
      (omega arith)

before_epoch : window_start 5000 (negsuc 1233) ≡ negsuc 4999
unfolding window_start floor_to
before_epoch = refl
