-- ===== src/Http/Status.antt =====
-- The status of a response, `parseStatus` and `hasErrorStatus` of src/protocols/http.cpp.

use native.Mathlib.Nat.{pow-suc, one-le-pow}
use monitoring_tool.Prelude.{
  ℕ, zero, suc, ◌+◌, ◌-◌, ◌*◌, ◌/◌, ◌^◌, ◌≤◌, ◌<◌, ◌≡◌, ◌≢◌, refl, sym, ap, ◌∙◌, true, false, some,
  List, [], ◌∷◌, ◌++◌, arith, ltb, leb, ◌==◌, length, length-append,
}
use monitoring_tool.Text.Tokens.{IsToken, is_end, get_token_len-end}
use monitoring_tool.Http.RequestLine.{spaced_token-blank, drop-token}
use monitoring_tool.Http.Response.{
  status, digit, digits, scan_unsigned, to_int, scan_int, status_code, status_at, parse_status,
  first_digit, has_error_status,
}

digit-of : (x : ℕ) → x ≤ 9 → digit (48 + x) ≡ x
digit-of x h = ground arith

digit-end : (e : ℕ) → is_end e ≡ true → digit e ≡ 16
digit-end e h = ground arith

digits-three :
    (x y z e : ℕ) (rest : List ℕ)
    → x ≤ 9
    → y ≤ 9
    → z ≤ 9
    → is_end e ≡ true
    → digits 10 0 ((48 + x) ∷ (48 + y) ∷ (48 + z) ∷ e ∷ rest) ≡ some (100 * x + 10 * y + z)
unfolding digits
digits-three x y z e rest hx hy hz h =
    rw (digit-of x hx, digit-of y hy, digit-of z hz, digit-end e h) (ground arith)

scan_unsigned-three :
    (x y z e : ℕ) (rest : List ℕ)
    → 1 ≤ x
    → x ≤ 9
    → y ≤ 9
    → z ≤ 9
    → is_end e ≡ true
    → scan_unsigned ((48 + x) ∷ (48 + y) ∷ (48 + z) ∷ e ∷ rest) ≡ some (some (100 * x + 10 * y + z))
unfolding scan_unsigned
scan_unsigned-three x y z e rest h1 hx hy hz h =
    let read = digits-three x y z e rest hx hy hz h in
    let small : ltb (digit (48 + x)) 10 ≡ true = ground arith in
    let nonzero : (48 + x == b'0') ≡ false = ground arith in rw (read, small, nonzero) refl

to_int-small : (n : ℕ) → n < 1000 → to_int false n ≡ some n
unfolding to_int
to_int-small n h = ground arith

-- A text that starts with a digit has neither white space nor a sign.
scan_int-digit :
    (c n : ℕ) (p : List ℕ)
    → 48 ≤ c
    → c ≤ 57
    → n < 1000
    → scan_unsigned (c ∷ p) ≡ some (some n)
    → scan_int (c ∷ p) ≡ some (some n)
unfolding scan_int
scan_int-digit c n p low high small read =
    let space : c == 32 ≡ false = ground arith in
    let white : leb c 13 ≡ false = ground arith in
    let minus : c == b'-' ≡ false = ground arith in
    let plus : c == b'+' ≡ false = ground arith in
    let tab : leb 9 c ≡ true = ground arith in
    rw (space, tab, white, minus, plus, read, to_int-small n small) (rw minus refl)

scan_int-three :
    (x y z e : ℕ) (rest : List ℕ)
    → 1 ≤ x
    → x ≤ 9
    → y ≤ 9
    → z ≤ 9
    → is_end e ≡ true
    → scan_int ((48 + x) ∷ (48 + y) ∷ (48 + z) ∷ e ∷ rest) ≡ some (some (100 * x + 10 * y + z))
scan_int-three x y z e rest h1 hx hy hz h =
    scan_int-digit (48 + x) (100 * x + 10 * y + z) ((48 + y) ∷ (48 + z) ∷ e ∷ rest) (omega arith)
      (omega arith) (omega arith) (scan_unsigned-three x y z e rest h1 hx hy hz h)

not_end : (x : ℕ) → (48 + x ≢ 32) × (48 + x ≢ 13) × (48 + x ≢ 10)
not_end x = (omega arith, omega arith, grind arith)

-- A number of three digits in the place of the status, behind a word and a space and in front of a
-- space, a CR or an LF, is looked up in the table of the status codes: `parseStatus` always comes back,
-- with the number if the table has it, and 0 otherwise.
pub parse_status-three :
    (protocol rest : List ℕ) (x y z e len : ℕ)
    → IsToken protocol
    → 1 ≤ length protocol
    → 1 ≤ x
    → x ≤ 9
    → y ≤ 9
    → z ≤ 9
    → is_end e ≡ true
    → length protocol + 4 ≤ len
    → len ≤ length (protocol ++ (32 ∷ (48 + x) ∷ (48 + y) ∷ (48 + z) ∷ e ∷ rest))
    → parse_status len (protocol ++ (32 ∷ (48 + x) ∷ (48 + y) ∷ (48 + z) ∷ e ∷ rest))
      ≡ some (status_code (100 * x + 10 * y + z) status)
unfolding parse_status status_at
parse_status-three protocol rest x y z e len token long h1 hx hy hz end bound inside =
    let number = (48 + x) ∷ (48 + y) ∷ (48 + z) ∷ [] in
    let line = number ++ (e ∷ rest) in
    let n = len - (length protocol + 1) in
    let (next, tokens) =
      get_token_len-end number rest e n (not_end x, (not_end y, (not_end z, tt))) end (omega arith)
        (omega (arith, length-append protocol (32 ∷ line))) in
    rw
      (spaced_token-blank protocol ((48 + y) ∷ (48 + z) ∷ e ∷ rest) (48 + x) len token long
        (omega arith) (omega arith))
      (ap (status_at n) (drop-token protocol line)
        ∙ rw (tokens, end, scan_int-three x y z e rest h1 hx hy hz end) refl)

-- One digit less.
shifted :
    (p i d : ℕ)
    → 1 ≤ d
    → 1 ≤ p
    → d * (p * 10) ≤ i
    → i < (d + 1) * (p * 10)
    → (d * p ≤ i / 10) × (i / 10 < (d + 1) * p) × (10 ≤ i)
shifted p i d h1 hp low high = (omega arith, omega arith, grind arith)

-- The loop of `hasErrorStatus` reaches the first digit.
first_digit-digit :
    (k fuel i d : ℕ)
    → 1 ≤ d
    → d ≤ 9
    → d * 10 ^ k ≤ i
    → i < (d + 1) * 10 ^ k
    → i ≤ fuel
    → first_digit fuel i ≡ d
unfolding first_digit
first_digit-digit zero zero i d h1 h9 low high enough = absurd (omega arith)
first_digit-digit zero (suc fuel) i d h1 h9 low high enough =
    let small : leb 10 i ≡ false = ground arith in rw small (omega arith)
first_digit-digit (suc k) zero i d h1 h9 low high enough = absurd (
    omega (
      arith,
      shifted (10 ^ k) i d h1 (one-le-pow k 10 (omega arith)) (rw (sym (pow-suc 10 k)) low)
          (rw (sym (pow-suc 10 k)) high),
    ))
first_digit-digit (suc k) (suc fuel) i d h1 h9 low high enough =
    let (low', high', large) =
      shifted (10 ^ k) i d h1 (one-le-pow k 10 (omega arith)) (rw (sym (pow-suc 10 k)) low)
        (rw (sym (pow-suc 10 k)) high) in
    let more : leb 10 i ≡ true = ground arith in
    rw more (first_digit-digit k fuel (i / 10) d h1 h9 low' high' (omega arith))

-- `hasErrorStatus` is true of a number if and only if its first decimal digit is 4 or more, with any
-- number of digits.
pub has_error_status-digit :
    (k i d : ℕ)
    → 1 ≤ d
    → d ≤ 9
    → d * 10 ^ k ≤ i
    → i < (d + 1) * 10 ^ k
    → has_error_status i ≡ leb 4 d
unfolding has_error_status
has_error_status-digit k i d h1 h9 low high =
    rw (first_digit-digit k i i d h1 h9 low high (omega arith)) (ground arith)
