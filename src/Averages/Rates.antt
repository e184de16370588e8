-- ===== src/Averages/Rates.antt =====
-- The rates that an interval reports, `ReqRate` and `ConnRate` of c-http-sniffer/src/metrics.

use monitoring_tool.Prelude.{
  ℕ, zero, suc, ◌+◌, ◌^◌, ◌≤◌, ◌<◌, ◌≡◌, refl, ap, ◌∙◌, Bool, true, false, List, [], ◌∷◌, ltb, ◌==◌,
  if◌then◌else◌, arith,
}
use monitoring_tool.Averages.{
  Doubles, MetricAvg, get, minimize, maximize, reset, end_second, get_rate, end_interval, count,
  seconds,
}

abbrev pub total_of : List ℕ → ℕ
total_of [] = 0
total_of (n ∷ ns) = n + total_of ns

abbrev pub smaller : ℕ → ℕ → ℕ
smaller a b = if ltb a b then a else b

-- The least and the greatest of a list, begun with a number.
abbrev pub least : ℕ → List ℕ → ℕ
least m [] = m
least m (n ∷ ns) = least (smaller n m) ns

abbrev pub greatest : ℕ → List ℕ → ℕ
greatest m [] = m
greatest m (n ∷ ns) = greatest (if ltb m n then n else m) ns

least-le : (m : ℕ) (ns : List ℕ) → least m ns ≤ m
least-le m [] = omega arith
least-le m (n ∷ ns) =
    let now : smaller n m ≤ m = ground arith in omega (arith, now, least-le (smaller n m) ns)

greatest-le : (m : ℕ) (ns : List ℕ) → greatest m ns ≤ m + total_of ns
greatest-le m [] = omega arith
greatest-le m (n ∷ ns) =
    let next = if ltb m n then n else m in
    let now : next ≤ m + n = ground arith in omega (arith, now, greatest-le next ns)

module _ (doubles : Doubles) where
  open doubles use {
    Double, of_nat, largest, plus, divide, less, is_close, to_int, plus_exact, less_exact,
    less_largest, far_from_largest, to_int_exact,
  }

  get_exact : (a : ℕ) → a < 2 ^ 31 → get doubles (of_nat a) ≡ of_nat a
  get_exact a h = rw (far_from_largest a (omega (arith, h))) refl

  -- A metric of this kind within an interval.
  abbrev state : (k s : ℕ) (lo : Double) (hi : ℕ) → MetricAvg Double
  state k s lo hi = record {
    subtotal = of_nat k;
    total = of_nat 0;
    subsum = of_nat 0;
    sum = of_nat s;
    avg = of_nat 0;
    min = lo;
    max = of_nat hi;
  }

  count-state :
      (n k s : ℕ) (lo : Double) (hi : ℕ)
      → k + n < 2 ^ 31
      → count doubles n (state k s lo hi) ≡ state (k + n) s lo hi
  unfolding count
  count-state zero k s lo hi h =
      let same : k ≡ k + 0 = omega arith in ap (λ (j : ℕ). state j s lo hi) same
  count-state (suc n) k s lo hi h =
      let one : plus (of_nat k) (of_nat 1) ≡ of_nat (k + 1) = plus_exact k 1 (omega (arith, h)) in
      let shift : k + 1 + n ≡ k + suc n = omega arith in
      ap (λ (d : Double). count doubles n (record (state k s lo hi) { subtotal = d })) one
      ∙ (count-state n (k + 1) s lo hi (omega (arith, h)) ∙ ap (λ (j : ℕ). state j s lo hi) shift)

  of_nat_if :
      (b : Bool) (x y : ℕ) → (if b then of_nat x else of_nat y) ≡ of_nat (if b then x else y)
  of_nat_if true x y = refl
  of_nat_if false x y = refl

  cnt-exact : (k : ℕ) → k < 2 ^ 31 → of_nat (to_int (get doubles (of_nat k))) ≡ of_nat k
  cnt-exact k h =
      ap (λ (d : Double). of_nat (to_int d)) (get_exact k h) ∙ ap of_nat (to_int_exact k h)

  end_second-state :
      (k s : ℕ) (lo lo' : Double) (hi : ℕ)
      → k + s < 2 ^ 31
      → hi < 2 ^ 31
      → minimize doubles (of_nat k) lo ≡ lo'
      → end_second doubles (state k s lo hi) ≡ state 0 (k + s) lo' (if ltb hi k then k else hi)
  end_second-state k s lo lo' hi h g e =
      let below : k < 2 ^ 31 = omega (arith, h) in
      let sum : plus (of_nat s) (of_nat k) ≡ of_nat (k + s) =
        plus_exact s k (omega (arith, h)) ∙ ap of_nat (omega arith) in
      let top : maximize doubles (of_nat k) (of_nat hi) ≡ of_nat (if ltb hi k then k else hi) =
        ap (λ (b : Bool). if b then of_nat k else of_nat hi)
          (less_exact hi k (omega (arith, g)) (omega (arith, below)))
        ∙ of_nat_if (ltb hi k) k hi in
      rw (cnt-exact k below, sum, e, top) refl

  -- A second with `n` requests.
  second-state :
      (n s : ℕ) (lo lo' : Double) (hi : ℕ)
      → n + s < 2 ^ 31
      → hi < 2 ^ 31
      → minimize doubles (of_nat n) lo ≡ lo'
      → end_second doubles (count doubles n (state 0 s lo hi))
        ≡ state 0 (n + s) lo' (if ltb hi n then n else hi)
  second-state n s lo lo' hi h g e =
      let from_none : 0 + n ≡ n = omega arith in
      ap (end_second doubles)
        (count-state n 0 s lo hi (omega (arith, h)) ∙ ap (λ (j : ℕ). state j s lo hi) from_none)
      ∙ end_second-state n s lo lo' hi h g e

  seconds-state :
      (ns : List ℕ) (s l hi : ℕ)
      → total_of ns + s < 2 ^ 31
      → l < 2 ^ 31
      → hi < 2 ^ 31
      → seconds doubles ns (state 0 s (of_nat l) hi)
        ≡ state 0 (total_of ns + s) (of_nat (least l ns)) (greatest hi ns)
  unfolding seconds
  seconds-state [] s l hi h hl hh = ap (λ (j : ℕ). state 0 j (of_nat l) hi) (omega arith)
  seconds-state (n ∷ ns) s l hi h hl hh =
      let lower : minimize doubles (of_nat n) (of_nat l) ≡ of_nat (smaller n l) =
        ap (λ (b : Bool). if b then of_nat n else of_nat l)
          (less_exact n l (omega (arith, h)) (omega (arith, hl)))
        ∙ of_nat_if (ltb n l) n l in
      let ended =
        second-state n s (of_nat l) (of_nat (smaller n l)) hi (omega (arith, h)) hh lower in
      let low : smaller n l < 2 ^ 31 = ground (arith, h, hl) in
      let high : (if ltb hi n then n else hi) < 2 ^ 31 = ground (arith, h, hh) in
      let rest =
        seconds-state ns (n + s) (smaller n l) (if ltb hi n then n else hi) (omega (arith, h)) low
          high in
      let sum : total_of ns + (n + s) ≡ n + total_of ns + s = omega arith in
      ap (seconds doubles ns) ended
      ∙ (rest
          ∙ ap
              (λ (j : ℕ).
                state 0 j (of_nat (least (smaller n l) ns))
                  (greatest (if ltb hi n then n else hi) ns))
              sum)

  -- After an interval of seconds with `n`, then `ns` requests or new flows, fewer than 2 ^ 31 in all, the
  -- average that is sent is the quotient of their number and the interval, with the least and the
  -- greatest number of a second, and the metric is as at the start of the interval.
  pub end_interval-rates :
      (interval n : ℕ) (ns : List ℕ)
      → 0 < interval
      → total_of (n ∷ ns) < 2 ^ 31
      → end_interval doubles (get_rate doubles interval) (seconds doubles (n ∷ ns) (reset doubles))
        ≡ (
          (
            get doubles (divide (of_nat (total_of (n ∷ ns))) (of_nat interval)),
            of_nat (least n ns),
            of_nat (greatest n ns),
          ),
          reset doubles,
        )
  unfolding seconds
  end_interval-rates interval n ns pos h =
      let lower : minimize doubles (of_nat n) largest ≡ of_nat n =
        rw (less_largest n (omega (arith, h))) refl in
      let first = second-state n 0 largest (of_nat n) 0 (omega (arith, h)) (omega arith) lower in
      let top : (if ltb 0 n then n else 0) ≡ n = ground arith in
      let sum : total_of ns + (n + 0) ≡ total_of (n ∷ ns) = omega arith in
      let after : seconds doubles (n ∷ ns) (reset doubles)
          ≡ state 0 (total_of (n ∷ ns)) (of_nat (least n ns)) (greatest n ns) =
        ap (seconds doubles ns) (first ∙ ap (λ (j : ℕ). state 0 (n + 0) (of_nat n) j) top)
        ∙ (seconds-state ns (n + 0) n n (omega (arith, h)) (omega (arith, h)) (omega (arith, h))
            ∙ ap (λ (j : ℕ). state 0 j (of_nat (least n ns)) (greatest n ns)) sum) in
      let some_time : (interval == 0) ≡ false = ground (arith, pos) in
      ap (end_interval doubles (get_rate doubles interval)) after
      ∙ rw
          (
            some_time,
            get_exact (total_of (n ∷ ns)) h,
            get_exact (least n ns) (omega (arith, h, least-le n ns)),
            get_exact (greatest n ns) (omega (arith, h, greatest-le n ns)),
          )
          refl
