-- ===== src/Averages.antt =====
-- The metrics that report an average, a minimum and a maximum: `Value` of c-http-sniffer/src/metrics/value.cpp,
-- `MetricAvg` of metricAvg.cpp, and `ReqRate` and `ConnRate` of the files beside it. A double is a
-- parameter. Each access to a value holds its mutex; what a message is sent with is its report here.
pub mod Rates
pub mod Tests
use monitoring_tool.Prelude.{
  ℕ, zero, suc, ◌+◌, ◌^◌, ◌≤◌, ◌<◌, ◌≡◌, Bool, true, false, List, [], ◌∷◌, ltb, ◌==◌, if◌then◌else◌,
}

-- The doubles with the operations that the metrics use, and what IEEE 754 promises of integers up to
-- 2 ^ 53: sums and comparisons of them are exact. `to_int` cuts to an int, `largest` is
-- `std::numeric_limits<double>::max()`.
pub record Doubles : Type 1 where
  pub Double : Type 0
  pub of_nat : ℕ → Double
  pub largest : Double
  pub plus : Double → Double → Double
  pub divide : Double → Double → Double
  pub less : Double → Double → Bool
  pub is_close : Double → Double → Bool
  pub to_int : Double → ℕ
  pub plus_exact : (a b : ℕ) → a + b ≤ 2 ^ 53 → plus (of_nat a) (of_nat b) ≡ of_nat (a + b)
  pub less_exact : (a b : ℕ) → a ≤ 2 ^ 53 → b ≤ 2 ^ 53 → less (of_nat a) (of_nat b) ≡ ltb a b
  pub less_largest : (a : ℕ) → a ≤ 2 ^ 53 → less (of_nat a) largest ≡ true
  pub far_from_largest : (a : ℕ) → a ≤ 2 ^ 53 → is_close (of_nat a) largest ≡ false
  pub to_int_exact : (a : ℕ) → a < 2 ^ 31 → to_int (of_nat a) ≡ a

pub record MetricAvg (Double : Type 0) : Type 0 where
  pub subtotal : Double
  pub total : Double
  pub subsum : Double
  pub sum : Double
  pub avg : Double
  pub min : Double
  pub max : Double

module _ (doubles : Doubles) where
  open doubles use {Double, of_nat, largest, plus, divide, less, is_close, to_int}

  -- `get`, and what `minimize` and `maximize` make of a value.
  abbrev pub get : Double → Double
  get val = if is_close val largest then of_nat 0 else val

  abbrev pub minimize : (v val : Double) → Double
  minimize v val = if less v val then v else val

  abbrev pub maximize : (v val : Double) → Double
  maximize v val = if less val v then v else val

  abbrev pub reset : MetricAvg Double
  reset = record {
    subtotal = of_nat 0;
    total = of_nat 0;
    subsum = of_nat 0;
    sum = of_nat 0;
    avg = of_nat 0;
    min = largest;
    max = of_nat 0;
  }

  -- `onRequestReceived` of `ReqRate` and `onNewFlowReceived` of `ConnRate`.
  abbrev pub count_one : MetricAvg Double → MetricAvg Double
  count_one m = record m { subtotal = plus m.subtotal (of_nat 1) }

  -- `onTimerExpired` of the two.
  abbrev pub end_second : MetricAvg Double → MetricAvg Double
  end_second m =
      let cnt = of_nat (to_int (get m.subtotal)) in
      record m {
        sum = plus m.sum cnt;
        min = minimize cnt m.min;
        max = maximize cnt m.max;
        subtotal = of_nat 0;
      }

  -- `getAvg` of the two.
  abbrev pub get_rate : (interval : ℕ) → MetricAvg Double → Double
  get_rate interval m = if interval == 0 then of_nat 0 else divide (get m.sum) (of_nat interval)

  -- `onIntervalExpired`: the average, the minimum and the maximum that are sent, and the metric behind it.
  abbrev pub end_interval :
      (get_avg : MetricAvg Double → Double)
      → MetricAvg Double
      → (Double × Double × Double) × MetricAvg Double
  end_interval get_avg m =
      let averaged = record m { avg = get_avg m } in
      ((get averaged.avg, get averaged.min, get averaged.max), reset)

  -- A second with `n` requests, or new flows, and then its end; and a sequence of them.
  unfoldable pub count : ℕ → MetricAvg Double → MetricAvg Double
  count zero m = m
  count (suc n) m = count n (count_one m)

  unfoldable pub seconds : List ℕ → MetricAvg Double → MetricAvg Double
  unfolding count
  seconds [] m = m
  seconds (n ∷ ns) m = seconds ns (end_second (count n m))
