-- ===== src/Timer/Tests.antt =====
-- An analysis over seven seconds.
use monitoring_tool.Prelude.{◌≡◌, refl, false, [], ◌∷◌, arith}
use monitoring_tool.Timer.{Analysis, ticks}
use monitoring_tool.Timer.Intervals.{Ticked, calls, interval_call, ticks-Ticked}

abbrev three_seconds : Analysis
three_seconds = record {
  interval = 3;
  duration = 0;
  int_step = 0;
  stopped = false;
  protocols = 1 ∷ 2 ∷ [];
}

seven : calls interval_call (ticks 7 three_seconds).1 ≡ 1 ∷ 2 ∷ 1 ∷ 2 ∷ []
unfolding ticks
seven = refl

ticks-Ticked_example : Ticked 7 three_seconds
ticks-Ticked_example = ticks-Ticked 7 three_seconds refl (omega arith) (omega arith)
