-- ===== src/Timer/Intervals.antt =====
-- When `intervalExpired` is notified.
use native.Mathlib.Nat.{mod-eq_of_lt, mod-lt, div-eq_of_lt}
use mathlib.Core.List.{append-nil, append_assoc}
use monitoring_tool.Prelude.{
  ℕ, zero, suc, ◌+◌, ◌/◌, ◌%◌, ◌^◌, ◌≤◌, ◌<◌, ◌≡◌, refl, ap, sym, ◌∙◌, List, [], ◌∷◌, ◌++◌, arith,
  dec_lt,
}
use monitoring_tool.Timer.{
  Analysis, Action, flow_hash_process, timer_expired, interval_expired, each_tick, each_interval,
  process_data, ticks,
}

-- The protocols that one of the three calls is made on.
abbrev pub hash_call : Action → List ℕ
hash_call (flow_hash_process p) = p ∷ []
hash_call (timer_expired p) = []
hash_call (interval_expired p) = []

abbrev pub timer_call : Action → List ℕ
timer_call (flow_hash_process p) = []
timer_call (timer_expired p) = p ∷ []
timer_call (interval_expired p) = []

abbrev pub interval_call : Action → List ℕ
interval_call (flow_hash_process p) = []
interval_call (timer_expired p) = []
interval_call (interval_expired p) = p ∷ []

abbrev pub calls : (Action → List ℕ) → List Action → List ℕ
calls call [] = []
calls call (act ∷ acts) = call act ++ calls call acts

calls-append :
    (call : Action → List ℕ) (acts bs : List Action)
    → calls call (acts ++ bs) ≡ calls call acts ++ calls call bs
calls-append call [] bs = refl
calls-append call (act ∷ acts) bs =
    rw (calls-append call acts bs) (sym (append_assoc (call act) (calls call acts) (calls call bs)))

-- A list `n` times, one behind the other.
abbrev pub repeated : ℕ → List ℕ → List ℕ
repeated zero ps = []
repeated (suc n) ps = repeated n ps ++ ps

-- `timerExpired` is notified on a protocol directly behind its `flowHashProcess`.
abbrev pub IsPaired : List Action → Type 0
IsPaired [] = Unit
IsPaired (flow_hash_process p ∷ []) = ⊥
IsPaired (flow_hash_process p ∷ flow_hash_process q ∷ acts) = ⊥
IsPaired (flow_hash_process p ∷ timer_expired q ∷ acts) = (p ≡ q) × IsPaired acts
IsPaired (flow_hash_process p ∷ interval_expired q ∷ acts) = ⊥
IsPaired (timer_expired p ∷ acts) = ⊥
IsPaired (interval_expired p ∷ acts) = IsPaired acts

IsPaired-append : (acts bs : List Action) → IsPaired acts → IsPaired bs → IsPaired (acts ++ bs)
IsPaired-append [] bs h k = k
IsPaired-append (flow_hash_process p ∷ []) bs h k = absurd h
IsPaired-append (flow_hash_process p ∷ flow_hash_process q ∷ acts) bs h k = h
IsPaired-append (flow_hash_process p ∷ timer_expired q ∷ acts) bs h k =
    (h.0, IsPaired-append acts bs h.1 k)
IsPaired-append (flow_hash_process p ∷ interval_expired q ∷ acts) bs h k = h
IsPaired-append (timer_expired p ∷ acts) bs h k = h
IsPaired-append (interval_expired p ∷ acts) bs h k = IsPaired-append acts bs h k

-- What the two loops call.
record TickCalls (ps : List ℕ) : Type 0 where
  hashed : calls hash_call (each_tick ps) ≡ ps
  expired : calls timer_call (each_tick ps) ≡ ps
  none_fired : calls interval_call (each_tick ps) ≡ []
  paired : IsPaired (each_tick ps)

each_tick-calls : (ps : List ℕ) → TickCalls ps
unfolding each_tick
each_tick-calls [] = record { hashed = refl; expired = refl; none_fired = refl; paired = tt }
each_tick-calls (p ∷ ps) =
    let c = each_tick-calls ps in
    record {
      hashed = ap (λ (l : List ℕ). p ∷ l) c.hashed;
      expired = ap (λ (l : List ℕ). p ∷ l) c.expired;
      none_fired = c.none_fired;
      paired = (refl, c.paired);
    }

record IntervalCalls (ps : List ℕ) : Type 0 where
  fired : calls interval_call (each_interval ps) ≡ ps
  none_hashed : calls hash_call (each_interval ps) ≡ []
  none_expired : calls timer_call (each_interval ps) ≡ []
  paired : IsPaired (each_interval ps)

each_interval-calls : (ps : List ℕ) → IntervalCalls ps
unfolding each_interval
each_interval-calls [] = record {
  fired = refl;
  none_hashed = refl;
  none_expired = refl;
  paired = tt;
}
each_interval-calls (p ∷ ps) =
    let c = each_interval-calls ps in
    record {
      fired = ap (λ (l : List ℕ). p ∷ l) c.fired;
      none_hashed = c.none_hashed;
      none_expired = c.none_expired;
      paired = c.paired;
    }

-- The state after `n` ticks of an analysis that has just been started.
pub record Ticked (n : ℕ) (a : Analysis) : Type 0 where
  pub step : (ticks n a).0.int_step ≡ n % a.interval
  pub same : (ticks n a).0.protocols ≡ a.protocols
  pub length_kept : (ticks n a).0.interval ≡ a.interval
  pub fired : calls interval_call (ticks n a).1 ≡ repeated (n / a.interval) a.protocols
  pub hashed : calls hash_call (ticks n a).1 ≡ repeated n a.protocols
  pub expired : calls timer_call (ticks n a).1 ≡ repeated n a.protocols
  pub paired : IsPaired (ticks n a).1

-- The next number's remainder and quotient.
mod_next : (n m : ℕ) → n % m + 1 < m → (suc n % m ≡ n % m + 1) × (suc n / m ≡ n / m)
mod_next n m h = (grind arith, grind arith)

mod_wrap : (n m : ℕ) → 0 < m → m ≤ n % m + 1 → (suc n % m ≡ 0) × (suc n / m ≡ suc (n / m))
mod_wrap n m pos h = (grind arith, grind arith)

-- One second: what `process_data` leaves and calls, by whether the interval is over.
process_within :
    (a : Analysis)
    → a.int_step + 1 < a.interval
    → a.interval < 2 ^ 32
    → process_data a ≡ (record a { int_step = a.int_step + 1 }, each_tick a.protocols)
unfolding process_data
process_within a h word = ground arith

process_over :
    (a : Analysis)
    → a.interval ≤ a.int_step + 1
    → a.int_step + 1 < 2 ^ 32
    → process_data a
      ≡ (record a { int_step = 0 }, each_tick a.protocols ++ each_interval a.protocols)
unfolding process_data
process_over a h word = ground arith

ticks_next :
    (n : ℕ) (a b : Analysis) (acts : List Action)
    → process_data (ticks n a).0 ≡ (b, acts)
    → ticks (suc n) a ≡ (b, (ticks n a).1 ++ acts)
unfolding ticks
ticks_next n a b acts e = ground arith

module _ (n : ℕ) (a : Analysis) (pos : 0 < a.interval) (word : a.interval < 2 ^ 32)
    (t : Ticked n a) where
  Ticked-within : n % a.interval + 1 < a.interval → Ticked (suc n) a
  Ticked-within h =
      let b = (ticks n a).0 in
      let acts = (ticks n a).1 in
      let e =
        ticks_next n a (record b { int_step = b.int_step + 1 }) (each_tick b.protocols)
          (process_within b (ground (arith, t.step, t.length_kept))
            (ground (arith, t.length_kept))) in
      let (m, q) = mod_next n a.interval h in
      let c = each_tick-calls b.protocols in
      record {
        step = rw (e, m) (ap (λ (k : ℕ). k + 1) t.step);
        same = rw e t.same;
        length_kept = rw e t.length_kept;
        fired =
            rw
              (e, q, calls-append interval_call acts (each_tick b.protocols), c.none_fired, t.fired)
              (append-nil (repeated (n / a.interval) a.protocols));
        hashed =
            rw (e, calls-append hash_call acts (each_tick b.protocols), c.hashed, t.same, t.hashed)
              refl;
        expired =
            rw
              (
                e,
                calls-append timer_call acts (each_tick b.protocols),
                c.expired,
                t.same,
                t.expired,
              )
              refl;
        paired = rw e (IsPaired-append acts (each_tick b.protocols) t.paired c.paired);
      }

  Ticked-wrap : a.interval ≤ n % a.interval + 1 → Ticked (suc n) a
  Ticked-wrap h =
      let b = (ticks n a).0 in
      let acts = (ticks n a).1 in
      let now = each_tick b.protocols ++ each_interval b.protocols in
      let e =
        ticks_next n a (record b { int_step = 0 }) now
          (process_over b (ground (arith, t.step, t.length_kept))
            (omega (arith, t.step, mod-lt n pos))) in
      let (m, q) = mod_wrap n a.interval pos h in
      let c = each_tick-calls b.protocols in
      let d = each_interval-calls b.protocols in
      record {
        step = rw (e, m) refl;
        same = rw e t.same;
        length_kept = rw e t.length_kept;
        fired =
            rw
              (
                e,
                q,
                calls-append interval_call acts now,
                calls-append interval_call (each_tick b.protocols) (each_interval b.protocols),
                c.none_fired,
                d.fired,
                t.same,
                t.fired,
              )
              refl;
        hashed =
            rw
              (
                e,
                calls-append hash_call acts now,
                calls-append hash_call (each_tick b.protocols) (each_interval b.protocols),
                c.hashed,
                d.none_hashed,
                t.same,
                t.hashed,
                append-nil a.protocols,
              )
              refl;
        expired =
            rw
              (
                e,
                calls-append timer_call acts now,
                calls-append timer_call (each_tick b.protocols) (each_interval b.protocols),
                c.expired,
                d.none_expired,
                t.same,
                t.expired,
                append-nil a.protocols,
              )
              refl;
        paired = rw e (
            IsPaired-append acts now t.paired (
              IsPaired-append (each_tick b.protocols) (each_interval b.protocols) c.paired
                d.paired));
      }

-- An analysis that starts at step 0, with an interval that is a uint32_t and not 0, has after `n` calls
-- of `processData` gone `n` times through its protocols, calling `flowHashProcess` on each and notifying
-- `timerExpired` to it directly behind that, and `n / interval` times, once for each interval that is
-- over, through them notifying `intervalExpired` to each, always in their order; the step is the seconds
-- of the current interval.
pub ticks-Ticked :
    (n : ℕ) (a : Analysis) → a.int_step ≡ 0 → 0 < a.interval → a.interval < 2 ^ 32 → Ticked n a
unfolding ticks
ticks-Ticked zero a h pos word = record {
  step = h ∙ sym (mod-eq_of_lt pos);
  same = refl;
  length_kept = refl;
  fired = rw (div-eq_of_lt pos) refl;
  hashed = refl;
  expired = refl;
  paired = tt;
}
ticks-Ticked (suc n) a h pos word =
    let t = ticks-Ticked n a h pos word in
    elim (dec_lt (n % a.interval + 1) a.interval) [
      | yes k ↦ Ticked-within n a pos word t k
      | no k ↦ Ticked-wrap n a pos word t (omega arith)
    ]
