-- ===== src/Timer.antt =====
-- The interval timer, c-http-sniffer/src/timer.c, with `Analysis::stop` and `isStopped` of
-- src/analysis.cpp. `processData` runs once a second; what it calls on each protocol is a list of
-- actions. `int_step` and `interval` are uint32_t.
pub mod Intervals
pub mod Tests
use monitoring_tool.Prelude.{
  ℕ, zero, suc, ◌+◌, ◌%◌, ◌^◌, Bool, true, false, List, [], ◌∷◌, ◌++◌, ltb, if◌then◌else◌,
}

-- The protocols of the analysis by their number; `stopped` is a status of -1.
pub record Analysis : Type 0 where
  pub interval : ℕ
  pub duration : ℕ
  pub int_step : ℕ
  pub stopped : Bool
  pub protocols : List ℕ

pub data Action : Type 0 where
  flow_hash_process timer_expired interval_expired : ℕ → Action

-- The two loops over the protocols.
pub each_tick : List ℕ → List Action
each_tick [] = []
each_tick (p ∷ ps) = Action.flow_hash_process p ∷ Action.timer_expired p ∷ each_tick ps

pub each_interval : List ℕ → List Action
each_interval [] = []
each_interval (p ∷ ps) = Action.interval_expired p ∷ each_interval ps

unfoldable pub process_data : Analysis → Analysis × List Action
unfolding each_tick each_interval
process_data a =
    let step = (a.int_step + 1) % 2 ^ 32 in
    if ltb step a.interval
    then (record a { int_step = step }, each_tick a.protocols)
    else (record a { int_step = 0 }, each_tick a.protocols ++ each_interval a.protocols)

unfoldable pub stop_analysis : Analysis → Analysis
stop_analysis a = record a { stopped = true }

-- The timers that `start_timer` creates: the delay, the period and what they call.
pub data Callback : Type 0 where
  calls_stop calls_process_data : Callback

unfoldable pub start_timer : Analysis → List (ℕ × ℕ × Callback)
start_timer a =
    (if ltb 0 a.duration then (a.duration, 0, Callback.calls_stop) ∷ [] else [])
    ++ (1, 1, Callback.calls_process_data) ∷ []

-- The state and the actions after `n` ticks.
unfoldable pub ticks : ℕ → Analysis → Analysis × List Action
unfolding process_data
ticks zero a = (a, [])
ticks (suc n) a =
    let before = ticks n a in let now = process_data before.0 in (now.0, before.1 ++ now.1)
