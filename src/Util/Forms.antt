-- ===== src/Util/Forms.antt =====
-- What `ip_ston` answers on any string, and the size of what `ip_ntos` prints.
use Prim.Native.Nat.{bit_or}
use mathlib.Core.List.{tail}
use native.Mathlib.Nat.{pow-suc}
use monitoring_tool.Prelude.{
  ℕ, zero, suc, ◌+◌, ◌-◌, ◌*◌, ◌/◌, ◌%◌, ◌^◌, ◌≤◌, ◌<◌, ◌≡◌, none, some, List, [], ◌∷◌, ◌++◌, arith,
  length, length-append,
}
use monitoring_tool.Util.{
  decimal, ip_ston, ip_ntos, number_loop, number, hex_number, concoct, part_step, parts_loop,
  finish, Parts,
}
use monitoring_tool.Prelude.Bits.{or_disjoint, disjoint_or}
use monitoring_tool.Util.RoundTrip.{octet, dotted, concoct_four}

-- The length of a printed number goes by its value, not by the room it has.
length-decimal : (k j n : ℕ) → n < 10 ^ suc j → length (decimal k n) ≤ suc j
unfolding decimal
length-decimal zero j n h = omega arith
length-decimal (suc k) zero n h = ground arith
length-decimal (suc k) (suc j) n h = ground (
  arith,
  length-append (decimal k (n / 10)) ((48 + n % 10) ∷ []),
  length-decimal k j (n / 10) (omega (arith, pow-suc 10 (suc j))),
)

length-octet : (x : ℕ) → x < 256 → length (decimal 10 x) ≤ 3
length-octet x h = length-decimal 10 2 x (omega arith)

length-dotted : (a b c d : ℕ) → a < 256 → b < 256 → c < 256 → d < 256 → length (dotted a b c d) ≤ 15
length-dotted a b c d ha hb hc hd = omega (
  arith,
  length-append (decimal 10 a)
      (b'.' ∷ (decimal 10 b ++ (b'.' ∷ (decimal 10 c ++ (b'.' ∷ decimal 10 d))))),
  length-append (decimal 10 b) (b'.' ∷ (decimal 10 c ++ (b'.' ∷ decimal 10 d))),
  length-append (decimal 10 c) (b'.' ∷ decimal 10 d),
  length-octet a ha,
  length-octet b hb,
  length-octet c hc,
  length-octet d hd,
)

-- For every u_int32_t the printed text and its terminating NUL fit into the buffer of 16 bytes that
-- `ip_ntos` allocates.
pub length-ip_ntos : (n : ℕ) → n < 2 ^ 32 → length (ip_ntos n) + 1 ≤ 16
unfolding ip_ntos
length-ip_ntos n h =
    rw (octet n 24, octet n 16, octet n 8, octet n 0)
      (omega (
        arith,
        length-dotted (n / 2 ^ 24 % 256) (n / 2 ^ 16 % 256) (n / 2 ^ 8 % 256) (n / 2 ^ 0 % 256)
            (omega arith) (omega arith) (omega arith) (omega arith),
      ))

hex_digit-lt : (val d : ℕ) → d < 16 → bit_or (val * 16 % 2 ^ 32) d < 2 ^ 32
hex_digit-lt val d h =
    let low : val * 16 % 2 ^ 32 ≡ val % 2 ^ 28 * 2 ^ 4 = omega arith in
    rw low (omega (arith, disjoint_or 4 d (val % 2 ^ 28) h))

number_loop-lt : (base val : ℕ) (cs : List ℕ) → val < 2 ^ 32 → (number_loop base cs val).0 < 2 ^ 32
unfolding number_loop
number_loop-lt base val [] h = h
number_loop-lt base val (c ∷ cs) h = ground (
  arith,
  hex_digit-lt val (c + 10 - 97),
  hex_digit-lt val (c + 10 - 65),
  number_loop-lt base ((val * base + (c - 48)) % 2 ^ 32) cs (omega arith),
  number_loop-lt base (bit_or (val * 16 % 2 ^ 32) (c + 10 - 97)) cs,
  number_loop-lt base (bit_or (val * 16 % 2 ^ 32) (c + 10 - 65)) cs,
)

hex_number-lt : (cs : List ℕ) → (hex_number cs).0 < 2 ^ 32
unfolding hex_number
hex_number-lt [] = omega arith
hex_number-lt (x ∷ cs) = number_loop-lt 16 0 cs (omega arith)

number-lt : (c : ℕ) (cs : List ℕ) → (number c cs).0 < 2 ^ 32
unfolding number
number-lt c cs = ground (
  arith,
  hex_number-lt cs,
  number_loop-lt 8 0 cs (omega arith),
  number_loop-lt 10 0 (c ∷ cs) (omega arith),
)

concoct-lt : (parts : List ℕ) (val : ℕ) → val < 2 ^ 32 → concoct parts val < 2 ^ 32
unfolding concoct
concoct-lt [] val h = h
concoct-lt (p0 ∷ []) val h = ground (arith, or_disjoint 24 val p0)
concoct-lt (p0 ∷ p1 ∷ []) val h =
    ground (arith, disjoint_or 24 (p1 * 2 ^ 16) p0, or_disjoint 16 val (p0 * 2 ^ 8 + p1))
concoct-lt (p0 ∷ p1 ∷ p2 ∷ []) val h = ground (arith, concoct_four p0 p1 p2 val)
concoct-lt (p0 ∷ p1 ∷ p2 ∷ p3 ∷ ps) val h = h

-- The last value that the outer loop leaves is a u_int32_t.
abbrev LastFits : Parts → Type 0
LastFits none = Unit {0}
LastFits (some (parts, val, rest)) = val < 2 ^ 32

part_step-LastFits :
    (next : List ℕ → List ℕ → Parts) (parts cp : List ℕ)
    → ((ps cs : List ℕ) → LastFits (next ps cs))
    → LastFits (part_step next parts cp)
unfolding part_step
part_step-LastFits next parts [] keep = tt
part_step-LastFits next parts (c ∷ cs) keep =
    ground (arith, number-lt c cs, keep (parts ++ (number c cs).0 ∷ []) (tail (number c cs).1))

parts_loop-LastFits : (room : ℕ) (parts cp : List ℕ) → LastFits (parts_loop room parts cp)
unfolding parts_loop
parts_loop-LastFits zero parts cp = part_step-LastFits (λ ps cs. none) parts cp (λ ps cs. tt {0})
parts_loop-LastFits (suc room) parts cp =
    part_step-LastFits (parts_loop room) parts cp (parts_loop-LastFits room)

finish-lt : (p : Parts) → LastFits p → finish p < 2 ^ 32
unfolding finish
finish-lt none h = omega arith
finish-lt (some (parts, val, rest)) h = ground (arith, concoct-lt parts val h)

-- Whatever string it is given, `ip_ston` answers a u_int32_t.
pub ip_ston-lt : (cp : List ℕ) → ip_ston cp < 2 ^ 32
unfolding ip_ston
ip_ston-lt cp = finish-lt (parts_loop 3 [] cp) (parts_loop-LastFits 3 [] cp)
