-- ===== src/Server/Connection/Kept.antt =====
-- The metrics that `Protocol::activeMetrics` of c-http-sniffer/src/protocols/protocol.cpp leaves and
-- subscribes.

use mathlib.Core.List.{append_assoc, append-nil}
use mathlib.Core.Path.{transport}
use monitoring_tool.Prelude.{
  ℕ, zero, suc, ◌+◌, ◌≡◌, refl, sym, ap, ◌∙◌, Bool, List, [], ◌∷◌, ◌++◌, if◌then◌else◌, arith,
  length, Bool-cases, inl, inr,
}
use monitoring_tool.Server.Connection.{erase, metric_at, has_bit, active_loop}

module _ {A : Type 0} where
  -- The elements whose bit is set, where the first has the bit `i`.
  abbrev pub kept : (mask i : ℕ) → List A → List A
  kept mask i [] = []
  kept mask i (m ∷ ms) =
      let later = kept mask (suc i) ms in if has_bit mask i then m ∷ later else later

  abbrev pub backwards : List A → List A
  backwards [] = []
  backwards (m ∷ ms) = backwards ms ++ m ∷ []

  backwards_snoc : (ms : List A) (m : A) → backwards (ms ++ m ∷ []) ≡ m ∷ backwards ms
  backwards_snoc [] m = refl
  backwards_snoc (x ∷ ms) m = rw (backwards_snoc ms m) refl

  abbrev one : Bool → A → List A
  one b m = if b then m ∷ [] else []

  kept_snoc :
      (mask i : ℕ) (ms : List A) (m : A)
      → kept mask i (ms ++ m ∷ []) ≡ kept mask i ms ++ one (has_bit mask (i + length ms)) m
  kept_snoc mask i [] m = ap (λ (k : ℕ). one (has_bit mask k) m) (omega arith)
  kept_snoc mask i (x ∷ ms) m =
      let same : suc i + length ms ≡ i + suc (length ms) = omega arith in
      let later =
        kept_snoc mask (suc i) ms m
        ∙ ap (λ (k : ℕ). kept mask (suc i) ms ++ one (has_bit mask k) m) same in
      elim (Bool-cases (has_bit mask i)) [
        | inl on ↦ rw on (ap (λ (t : List A). x ∷ t) later)
        | inr off ↦ rw off later
      ]

  -- A list that is not empty, from behind.
  snoc :
      (n : ℕ) (xs : List A)
      → length xs ≡ suc n
      → (ys : List A) × (m : A) × (xs ≡ ys ++ m ∷ []) × (length ys ≡ n)
  snoc n [] h = absurd (omega (arith, h))
  snoc n (x ∷ []) h = ([], x, refl, omega (arith, h))
  snoc zero (x ∷ y ∷ xs) h = absurd (omega (arith, h))
  snoc (suc n) (x ∷ y ∷ xs) h =
      let (ys, m, e, l) = snoc n (y ∷ xs) (omega (arith, h)) in
      (x ∷ ys, m, ap (λ (t : List A). x ∷ t) e, omega (arith, l))

  metric_at-length :
      (ys : List A) (m : A) (done : List A) → metric_at (length ys) (ys ++ (m ∷ done)) ≡ m ∷ []
  metric_at-length [] m done = refl
  metric_at-length (y ∷ ys) m done = metric_at-length ys m done

  erase-length :
      (ys : List A) (m : A) (done : List A) → erase (length ys) (ys ++ (m ∷ done)) ≡ ys ++ done
  erase-length [] m done = refl
  erase-length (y ∷ ys) m done = ap (λ (t : List A). y ∷ t) (erase-length ys m done)

  -- The loop from the end of `xs` down, with `done` behind.
  abbrev KeepsFrom : (mask n : ℕ) (xs done subscribed : List A) → Type 0
  KeepsFrom mask n xs done subscribed =
      active_loop mask n (xs ++ done) subscribed
      ≡ (kept mask 0 xs ++ done, subscribed ++ backwards (kept mask 0 xs))

  KeepsFrom-snoc :
      (mask : ℕ) (ys : List A) (m : A) (done subscribed : List A)
      → ((d s : List A) → KeepsFrom mask (length ys) ys d s)
      → KeepsFrom mask (suc (length ys)) (ys ++ m ∷ []) done subscribed
  unfolding active_loop
  KeepsFrom-snoc mask ys m done subscribed ih =
      let shape = append_assoc ys (m ∷ []) done in
      let kept_ys = kept mask 0 ys in
      let kept_all = kept_snoc mask 0 ys m in
      let bit : has_bit mask (0 + length ys) ≡ has_bit mask (length ys) =
        ap (has_bit mask) (omega arith) in
      elim (Bool-cases (has_bit mask (length ys))) [
        | inl on ↦
            rw (shape, on, metric_at-length ys m done, kept_all, bit, on)
              (ih (m ∷ done) (subscribed ++ m ∷ [])
                ∙ rw
                    (
                      append_assoc kept_ys (m ∷ []) done,
                      append_assoc subscribed (m ∷ []) (backwards kept_ys),
                      backwards_snoc kept_ys m,
                    )
                    refl)
        | inr off ↦
            rw (shape, off, erase-length ys m done, kept_all, bit, off)
              (ih done subscribed ∙ rw (append-nil kept_ys) refl)
      ]

  active_loop-KeepsFrom :
      (mask n : ℕ) (xs done subscribed : List A)
      → length xs ≡ n
      → KeepsFrom mask n xs done subscribed
  unfolding active_loop
  active_loop-KeepsFrom mask zero [] done subscribed h =
      ap (λ (s : List A). (done, s)) (sym (append-nil subscribed))
  active_loop-KeepsFrom mask zero (x ∷ xs) done subscribed h = absurd (omega (arith, h))
  active_loop-KeepsFrom mask (suc n) xs done subscribed h =
      let (ys, m, e, l) = snoc n xs h in
      let whole = KeepsFrom-snoc mask ys m done subscribed (λ d s.
        transport (ap (λ (k : ℕ). KeepsFrom mask k ys d s) (sym l))
          (active_loop-KeepsFrom mask n ys d s l)) in
      transport (ap (λ (t : List A). KeepsFrom mask (suc n) t done subscribed) (sym e))
        (transport (ap (λ (k : ℕ). KeepsFrom mask (suc k) (ys ++ m ∷ []) done subscribed) l) whole)

-- `activeMetrics` leaves the metrics whose bit of the mask is set, in their order, and subscribes each of
-- them once, the last first.
pub active_loop-kept :
    {A : Type 0} (mask : ℕ) (metrics subscribed : List A)
    → active_loop mask (length metrics) metrics subscribed
      ≡ (kept mask 0 metrics, subscribed ++ backwards (kept mask 0 metrics))
active_loop-kept mask metrics subscribed =
    ap (λ (l : List _). active_loop mask (length metrics) l subscribed) (sym (append-nil metrics))
    ∙ (active_loop-KeepsFrom mask (length metrics) metrics [] subscribed refl
        ∙ ap (λ (l : List _). (l, subscribed ++ backwards (kept mask 0 metrics)))
            (append-nil (kept mask 0 metrics)))
