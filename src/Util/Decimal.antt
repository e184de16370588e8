-- ===== src/Util/Decimal.antt =====
-- Reading back a printed number.

use mathlib.Core.List.{append_assoc}
use native.Mathlib.Nat.{pow-suc}
use monitoring_tool.Prelude.{
  ◌≢◌, ℕ, zero, suc, ◌+◌, ◌*◌, ◌/◌, ◌%◌, ◌^◌, ◌≤◌, ◌<◌, ◌≡◌, refl, ◌∙◌, ap, true, false, inl, inr,
  List, [], ◌∷◌, ◌++◌, arith, ltb, Bool-cases, dec_lt,
}
use monitoring_tool.Util.{decimal, number_loop, number, peek, is_digit}

-- One decimal digit in base ten.
number_loop_digit :
    (d val : ℕ) (cs : List ℕ)
    → d < 10
    → val * 10 + d < 2 ^ 32
    → number_loop 10 ((48 + d) ∷ cs) val ≡ number_loop 10 cs (val * 10 + d)
unfolding number_loop
number_loop_digit d val cs h fits = ground arith

-- In base ten the printed digits are read back, whatever stands behind them.
pub number_loop-decimal :
    (digits n : ℕ) (cs : List ℕ)
    → n < 10 ^ digits
    → n < 2 ^ 32
    → number_loop 10 (decimal digits n ++ cs) 0 ≡ number_loop 10 cs n
unfolding decimal
number_loop-decimal zero n cs fits word = ap (number_loop 10 cs) (omega arith)
number_loop-decimal (suc k) n cs fits word = elim (Bool-cases (ltb n 10)) [
  | inl one ↦ rw one (ground (arith, number_loop_digit n 0 cs))
  | inr more ↦ rw more (
      ground (
        arith,
        append_assoc (decimal k (n / 10)) ((48 + n % 10) ∷ []) cs,
        pow-suc 10 k,
        number_loop-decimal k (n / 10) ((48 + n % 10) ∷ cs),
        number_loop_digit (n % 10) (n / 10) cs,
      ))
]

decimal_more : (k n : ℕ) → 10 ≤ n → decimal (suc k) n ≡ decimal k (n / 10) ++ (48 + n % 10) ∷ []
unfolding decimal
decimal_more k n h = ground arith

decimal_one : (k n : ℕ) → n < 10 → decimal (suc k) n ≡ (48 + n) ∷ []
unfolding decimal
decimal_one k n h = ground arith

-- The text of a positive number begins with a digit from 1 to 9.
record Head (text : List ℕ) : Type 0 where
  first : ℕ
  others : List ℕ
  shape : text ≡ first ∷ others
  above : 48 < first
  below : first ≤ 57

Head-one : (k n : ℕ) → n < 10 → 0 < n → Head (decimal (suc k) n)
Head-one k n h pos = record {
  first = 48 + n;
  others = [];
  shape = decimal_one k n h;
  above = omega arith;
  below = omega arith;
}

Head-more : (k n : ℕ) → 10 ≤ n → Head (decimal k (n / 10)) → Head (decimal (suc k) n)
Head-more k n h front = record {
  first = front.first;
  others = front.others ++ (48 + n % 10) ∷ [];
  shape = decimal_more k n h ∙ ap (λ t. t ++ (48 + n % 10) ∷ []) front.shape;
  above = front.above;
  below = front.below;
}

decimal-Head : (k n : ℕ) → n < 10 ^ suc k → 0 < n → Head (decimal (suc k) n)
decimal-Head zero n fits pos = Head-one zero n fits pos
decimal-Head (suc k) n fits pos = elim (dec_lt n 10) [
  | yes one ↦ Head-one (suc k) n one pos
  | no more ↦
      Head-more (suc k) n (omega arith)
        (decimal-Head k (n / 10) (omega (arith, pow-suc 10 (suc k))) (omega arith))
]

-- A character at which a number in base eight or ten ends.
abbrev Ends : List ℕ → Type 0
Ends cs = (is_digit (peek cs) ≡ false) × (peek cs ≢ b'x') × (peek cs ≢ b'X')

number_loop_end :
    (base val : ℕ) (cs : List ℕ) → base ≢ 16 → Ends cs → number_loop base cs val ≡ (val, cs)
unfolding number_loop
number_loop_end base val [] h e = refl
number_loop_end base val (c ∷ cs) h e = ground arith

-- The parse of a number `n` printed in at most `k + 1` digits: it begins with a digit, and `number`
-- answers `n` and what stands behind.
pub record Parsed (text rest : List ℕ) (n : ℕ) : Type 0 where
  pub first : ℕ
  pub others : List ℕ
  pub shape : text ++ rest ≡ first ∷ others
  pub digit : is_digit first ≡ true
  pub parse : number first others ≡ (n, rest)

module _ (k : ℕ) (rest : List ℕ) (ends : Ends rest) where
  number_zero : number 48 rest ≡ (0, rest)
  unfolding number
  number_zero = ground (arith, number_loop_end 8 0 rest (omega arith) ends)

  number_pos :
      (n : ℕ)
      → n < 10 ^ suc k
      → n < 2 ^ 32
      → (h : Head (decimal (suc k) n)) → number h.first (h.others ++ rest) ≡ (n, rest)
  unfolding number
  number_pos n fits word h = ground (
    arith,
    h.above,
    ap (λ t. number_loop 10 (t ++ rest) 0) h.shape,
    number_loop-decimal (suc k) n rest fits word,
    number_loop_end 10 n rest (omega arith) ends,
  )

  pub number-decimal : (n : ℕ) → n < 10 ^ suc k → n < 2 ^ 32 → Parsed (decimal (suc k) n) rest n
  number-decimal zero fits word = record {
    first = 48;
    others = rest;
    shape = ap (λ t. t ++ rest) (decimal_one k 0 (omega arith));
    digit = refl;
    parse = number_zero;
  }
  number-decimal (suc n) fits word =
      let h = decimal-Head k (suc n) fits (omega arith) in
      record {
        first = h.first;
        others = h.others ++ rest;
        shape = ap (λ t. t ++ rest) h.shape;
        digit = ground (arith, h.above, h.below);
        parse = number_pos (suc n) fits word h;
      }
