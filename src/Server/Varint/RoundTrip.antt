-- ===== src/Server/Varint/RoundTrip.antt =====
-- What `decode_varint` makes of the bytes that `encode_varint` wrote.
use Prim.Native.Nat.{bit_and, bit_or}
use native.Mathlib.Numerals.{towards_suc}
use monitoring_tool.Prelude.{
  ℕ, zero, suc, ◌+◌, ◌-◌, ◌*◌, ◌/◌, ◌%◌, ◌^◌, ◌≤◌, ◌<◌, ◌≡◌, refl, none, some, List, ◌∷◌, ◌++◌,
  arith, ltb, if◌then◌else◌, length, Bool-cases, inl, inr,
}
use monitoring_tool.Prelude.Bits.{low_mask, high_mask, or_disjoint}
use monitoring_tool.Server.Varint.{decode_loop, shift_int, decode_varint, encode_varint}
use monitoring_tool.Server.Varint.Encode.{groups, low_group, encode_varint-groups}

pub shift_seven : (s : ℕ) → 2 ^ (s + 7) ≡ 2 ^ s * 128
shift_seven s = simp towards_suc (omega arith)

pub top_bit : (b : ℕ) → b < 256 → bit_and b 0x80 ≡ b / 128 * 128
top_bit b h = omega (arith, high_mask 7 b 1, low_mask 1 (b / 128))

-- One round on a byte whose group `g` fits into an int where it is shifted to.
module _ (g s value : ℕ) (sock : List ℕ) (small : g < 128) (shift : s < 32) (room : value < 2 ^ s)
    (fits : g * 2 ^ s < 2 ^ 31) where
  decode_last : decode_loop (g ∷ sock) value s ≡ some (value + g * 2 ^ s, sock)
  unfolding decode_loop shift_int
  decode_last = ground (arith, low_group g, top_bit g, or_disjoint s value g room)

  pub decode_inner :
      decode_loop ((g + 128) ∷ sock) value s ≡ decode_loop sock (value + g * 2 ^ s) (s + 7)
  unfolding decode_loop shift_int
  decode_inner = ground (arith, low_group (g + 128), top_bit (g + 128), or_disjoint s value g room)

-- A round with its group below bit 28, of an encoding with more than one group left.
module _ (s value w : ℕ) (rest : List ℕ) (low : s < 22) (room : value < 2 ^ s)
    (scale : 2 ^ s ≤ 2 ^ 21) where
  fits_low : (g : ℕ) → g < 128 → g * 2 ^ s < 2 ^ 31
  fits_low g h = grind arith

  decode_round :
      (k : ℕ)
      → decode_loop (groups (suc k) w ++ rest) value s ≡ (
          if ltb w 128
          then some (value + w * 2 ^ s, rest)
          else decode_loop (groups k (w / 128) ++ rest) (value + w % 128 * 2 ^ s) (s + 7))
  unfolding groups
  decode_round k = elim (Bool-cases (ltb w 128)) [
    | inl last ↦
        rw last
          (decode_last w s value rest (ground arith) (omega arith) room (fits_low w (ground arith)))
    | inr more ↦ rw more (
        decode_inner (w % 128) s value (groups k (w / 128) ++ rest) (omega arith) (omega arith) room
          (fits_low (w % 128) (omega arith)))
  ]

-- A byte at bit 35 is shifted past the width of an int.
decode_late : (k w value : ℕ) (rest : List ℕ) → decode_loop (groups k w ++ rest) value 35 ≡ none
unfolding groups decode_loop shift_int
decode_late zero w value rest = refl
decode_late (suc k) w value rest = ground arith

-- The fifth group, at bit 28: only three of its bits fit into an int.
decode_fifth :
    (k w value : ℕ) (rest : List ℕ)
    → value < 2 ^ 28
    → decode_loop (groups (suc k) w ++ rest) value 28 ≡ (
        if ltb w 8
        then some (value + w * 2 ^ 28, rest)
        else if ltb w 16
        then some (value + w * 2 ^ 28 + (2 ^ 64 - 2 ^ 32), rest)
        else none)
unfolding groups decode_loop shift_int
decode_fifth k w value rest room = ground (
  arith,
  low_group w,
  low_group (w % 128 + 128),
  top_bit w,
  top_bit (w % 128 + 128),
  or_disjoint 28 value w room,
  or_disjoint 28 value (2 ^ 36 - 2 ^ 4 + w) room,
  decode_late k (w / 128) (bit_or value (w % 128 * 2 ^ 28)) rest,
  decode_late k (w / 128) (bit_or value (2 ^ 64 - 2 ^ 32 + w % 128 * 2 ^ 28)) rest,
)

-- Reading back what was written for `v`, and leaving the rest of the stream. Values below 2 ^ 31
-- come back; from there to 2 ^ 32 the upper half is filled with ones; from 2 ^ 32 on the behaviour
-- is undefined.
pub decode_varint-groups :
    (v : ℕ) (rest : List ℕ)
    → decode_varint (groups 9 v ++ rest) ≡ (
        if ltb v (2 ^ 31)
        then some (v, rest)
        else if ltb v (2 ^ 32)
        then some (v + (2 ^ 64 - 2 ^ 32), rest)
        else none)
unfolding decode_varint
decode_varint-groups v rest =
    let w1 = v / 128 in
    let w2 = w1 / 128 in
    let w3 = w2 / 128 in
    let w4 = w3 / 128 in
    let v1 = 0 + v % 128 * 2 ^ 0 in
    let v2 = v1 + w1 % 128 * 2 ^ 7 in
    let v3 = v2 + w2 % 128 * 2 ^ 14 in
    let v4 = v3 + w3 % 128 * 2 ^ 21 in
    ground (
      arith,
      decode_round 0 0 v rest (omega arith) (omega arith) (omega arith) 8,
      decode_round 7 v1 w1 rest (omega arith) (omega arith) (omega arith) 7,
      decode_round 14 v2 w2 rest (omega arith) (omega arith) (omega arith) 6,
      decode_round 21 v3 w3 rest (omega arith) (omega arith) (omega arith) 5,
      decode_fifth 4 w4 v4 rest (omega arith),
    )

-- Encoding any uint64_t `v` into a buffer with room for ten bytes succeeds, and the count returned is
-- the number of bytes written. Decoding those bytes, whatever follows them, answers `v` and leaves
-- what follows if `v` is below 2 ^ 31; between 2 ^ 31 and 2 ^ 32 it answers `v` with the upper 32
-- bits set instead; from 2 ^ 32 on it shifts an int too far, which is undefined.
pub decode_varint-encode_varint :
    (room v : ℕ) (rest : List ℕ)
    → 10 ≤ room
    → v < 2 ^ 64
    → (bytes : List ℕ) × (encode_varint room v ≡ some (bytes, length bytes))
      × (decode_varint (bytes ++ rest) ≡ (
          if ltb v (2 ^ 31)
          then some (v, rest)
          else if ltb v (2 ^ 32)
          then some (v + (2 ^ 64 - 2 ^ 32), rest)
          else none))
decode_varint-encode_varint room v rest h fits =
    (groups 9 v, encode_varint-groups room v h fits, decode_varint-groups v rest)
