-- ===== src/Util.antt =====
-- Address conversion, c-http-sniffer/src/util.c: `ip_ntos` and `ip_ston`. A C string is the list of
-- its characters' codes before the terminating NUL, and the end of the list reads as NUL. A u_int32_t
-- is a number, with its wrap-around written out.
pub mod Decimal
pub mod RoundTrip
pub mod Forms
pub mod Tests
use Prim.Native.Nat.{bit_and, bit_or}
use mathlib.Core.List.{tail}
use monitoring_tool.Prelude.{
  ℕ, zero, suc, ◌+◌, ◌-◌, ◌*◌, ◌/◌, ◌%◌, ◌^◌, Bool, true, false, not, ◌&&◌, ◌||◌, Option, none,
  some, List, [], ◌∷◌, ◌++◌, ltb, leb, ◌==◌, if◌then◌else◌,
}

-- The conversion `%d` of printf for a value with at most `digits` digits that is not negative.
unfoldable pub decimal : (digits : ℕ) → ℕ → List ℕ
decimal zero n = []
decimal (suc digits) n =
    let front = decimal digits (n / 10) in
    if ltb n 10 then (48 + n) ∷ [] else front ++ (48 + n % 10) ∷ []

-- An int has ten digits at most.
unfoldable pub ip_ntos : ℕ → List ℕ
ip_ntos n =
    decimal 10 (bit_and n 0xff000000 / 2 ^ 24)
    ++ (b'.'
        ∷ (decimal 10 (bit_and n 0x00ff0000 / 2 ^ 16)
            ++ (b'.'
                ∷ (decimal 10 (bit_and n 0x0000ff00 / 2 ^ 8)
                    ++ (b'.' ∷ decimal 10 (bit_and n 0x000000ff / 2 ^ 0))))))

-- The tests of ctype.h in the C locale.
abbrev pub is_digit : ℕ → Bool
is_digit c = leb b'0' c && leb c b'9'

abbrev pub is_ascii : ℕ → Bool
is_ascii c = ltb c 128

abbrev pub is_lower : ℕ → Bool
is_lower c = leb b'a' c && leb c b'z'

abbrev pub is_xdigit : ℕ → Bool
is_xdigit c = is_digit c || leb b'a' c && leb c b'f' || leb b'A' c && leb c b'F'

abbrev pub is_space : ℕ → Bool
is_space c = c == b' ' || leb 9 c && leb c 13

-- `*cp`, and `*++cp` on the rest.
abbrev pub peek : List ℕ → ℕ
peek [] = 0
peek (c ∷ cs) = c

-- The inner loop: `val`, and what is left of the string at the first character it does not take.
unfoldable pub number_loop : (base : ℕ) → List ℕ → (val : ℕ) → ℕ × List ℕ
number_loop base [] val = (val, [])
number_loop base (c ∷ cs) val =
    let hex = bit_or (val * 16 % 2 ^ 32) (c + 10 - (if is_lower c then b'a' else b'A')) in
    let dec = (val * base + (c - b'0')) % 2 ^ 32 in
    let digit = is_ascii c && is_digit c in
    let more = number_loop base cs (if digit then dec else hex) in
    if digit || base == 16 && is_ascii c && is_xdigit c then more else (val, c ∷ cs)

-- The prefix that sets the base, and the number behind it, at a digit `c`: `hex_number` is at the `x`.
pub hex_number : List ℕ → ℕ × List ℕ
unfolding number_loop
hex_number [] = (0, [])
hex_number (x ∷ cs) = number_loop 16 cs 0

unfoldable pub number : ℕ → List ℕ → ℕ × List ℕ
unfolding number_loop hex_number
number c cs =
    if c == b'0'
    then (if peek cs == b'x' || peek cs == b'X' then hex_number cs else number_loop 8 cs 0)
    else number_loop 10 (c ∷ cs) 0

-- One pass of the outer loop at the string `cp`: a number, then a dot and `next`, or the end. `none` is
-- a `return (0)`; a result holds the parts stored in `parts`, the last value and the rest.
abbrev pub Parts : Type 0
Parts = Option (List ℕ × ℕ × List ℕ)

pub part_step : (List ℕ → List ℕ → Parts) → (parts cp : List ℕ) → Parts
unfolding number
part_step next parts [] = none
part_step next parts (c ∷ cs) =
    let val = (number c cs).0 in
    let rest = (number c cs).1 in
    if is_digit c
    then (if peek rest == b'.'
        then next (parts ++ val ∷ []) (tail rest)
        else some (parts, val, rest))
    else none

-- The outer loop; `room` counts the slots left before `parts + 3`.
pub parts_loop : (room : ℕ) (parts cp : List ℕ) → Parts
unfolding part_step
parts_loop zero = part_step (λ parts cp. none)
parts_loop (suc room) = part_step (parts_loop room)

-- The switch on the number of parts.
pub concoct : List ℕ → ℕ → ℕ
concoct [] val = val
concoct (p0 ∷ []) val = if ltb 0xff_ffff val || ltb 0xff p0 then 0 else bit_or val (p0 * 2 ^ 24)
concoct (p0 ∷ p1 ∷ []) val =
    if ltb 0xffff val || ltb 0xff p0 || ltb 0xff p1
    then 0
    else bit_or val (bit_or (p0 * 2 ^ 24) (p1 * 2 ^ 16))
concoct (p0 ∷ p1 ∷ p2 ∷ []) val =
    if ltb 0xff val || ltb 0xff p0 || ltb 0xff p1 || ltb 0xff p2
    then 0
    else bit_or val (bit_or (bit_or (p0 * 2 ^ 24) (p1 * 2 ^ 16)) (p2 * 2 ^ 8))
concoct (p0 ∷ p1 ∷ p2 ∷ p3 ∷ ps) val = val

-- The check of the trailing character, then the switch.
pub finish : Parts → ℕ
unfolding concoct
finish none = 0
finish (some (parts, val, rest)) =
    let c = peek rest in
    if not (c == 0) && (not (is_ascii c) || not (is_space c)) then 0 else concoct parts val

unfoldable pub ip_ston : List ℕ → ℕ
unfolding parts_loop finish
ip_ston cp = finish (parts_loop 3 [] cp)
