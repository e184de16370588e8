-- ===== src/Server/Varint/Encode.antt =====
-- `encode_varint` against the plain description of the format: groups of seven bits, lowest first,
-- the top bit set on all but the last.
use Prim.Native.Nat.{bit_and, bit_or}
use mathlib.Core.List.{append_assoc}
use native.Mathlib.Nat.{pow-suc, zero-add, one-le-pow}
use monitoring_tool.Prelude.{
  ℕ, zero, suc, ◌+◌, ◌/◌, ◌%◌, ◌^◌, ◌≤◌, ◌<◌, ◌≡◌, refl, none, some, List, [], ◌∷◌, ◌++◌, arith,
  ltb, if◌then◌else◌, length, All,
}
use monitoring_tool.Prelude.Bits.{low_mask, or_disjoint, two_pow_pos}
use monitoring_tool.Server.Varint.{encode_loop, encode_varint}

-- The groups of `v`, for `v` below 128 ^ (k + 1).
unfoldable pub groups : ℕ → ℕ → List ℕ
groups zero v = v ∷ []
groups (suc k) v =
    let rest = groups k (v / 128) in if ltb v 128 then v ∷ [] else (v % 128 + 128) ∷ rest

-- The two bytes that a round can write.
pub low_group : (v : ℕ) → bit_and v 0x7f ≡ v % 128
low_group v = low_mask 7 v

pub marked_group : (v : ℕ) → bit_or (bit_and v 0x7f) 0x80 ≡ v % 128 + 128
marked_group v = rw (low_group v) (or_disjoint 7 (v % 128) 1 (omega arith))

encode_loop-groups :
    (k room v encoded : ℕ) (buffer : List ℕ)
    → v < 128 ^ suc k
    → k < room
    → encode_loop room buffer encoded v ≡ some (buffer ++ groups k v, encoded + length (groups k v))
unfolding encode_loop groups
encode_loop-groups zero zero v encoded buffer fits h = absurd (omega arith)
encode_loop-groups (suc k) zero v encoded buffer fits h = absurd (omega arith)
encode_loop-groups zero (suc room) v encoded buffer fits h = ground (arith, low_group v)
encode_loop-groups (suc k) (suc room) v encoded buffer fits h =
    let last : List ℕ = (v % 128 + 128) ∷ [] in
    ground (
      arith,
      low_group v,
      marked_group v,
      encode_loop-groups k room (v / 128) (encoded + 1) (buffer ++ last)
          (omega (arith, pow-suc 128 (suc k))) (omega arith),
      append_assoc buffer last (groups k (v / 128)),
    )

-- On every uint64_t, with room for 10 bytes, the buffer holds the groups and their number is
-- returned.
pub encode_varint-groups :
    (room v : ℕ)
    → 10 ≤ room
    → v < 2 ^ 64
    → encode_varint room v ≡ some (groups 9 v, length (groups 9 v))
unfolding encode_varint
encode_varint-groups room v h fits =
    rw zero-add at (encode_loop-groups 9 room v 0 [] (omega arith) h)

-- Every value with at most `k + 1` groups takes at most `k + 1` bytes.
pub length-groups : (k v : ℕ) → (1 ≤ length (groups k v)) × (length (groups k v) ≤ k + 1)
unfolding groups
length-groups zero v = omega arith
length-groups (suc k) v = ground (arith, length-groups k (v / 128))

pub groups-IsByte : (k v : ℕ) → v < 128 ^ suc k → All (λ b. b < 256) (groups k v)
unfolding groups
groups-IsByte zero v h = omega arith
groups-IsByte (suc k) v h =
    ground (arith, groups-IsByte k (v / 128) (omega (arith, pow-suc 128 (suc k))))

-- On every uint64_t and with room for ten bytes, `encode_varint` writes between 1 and 10 bytes, each
-- below 256, and returns how many it wrote.
pub encode_varint_bounds :
    (room v : ℕ)
    → 10 ≤ room
    → v < 2 ^ 64
    → (bytes : List ℕ) × (n : ℕ) × (encode_varint room v ≡ some (bytes, n))
      × All (λ b. b < 256) bytes
      × (length bytes ≡ n)
      × (1 ≤ n)
      × (n ≤ 10)
encode_varint_bounds room v h fits =
    let size = length-groups 9 v in
    (
      groups 9 v,
      length (groups 9 v),
      encode_varint-groups room v h fits,
      groups-IsByte 9 v (omega arith),
      refl,
      size.0,
      size.1,
    )

encode_loop_overflow :
    (room v encoded : ℕ) (buffer : List ℕ)
    → 128 ^ room ≤ v
    → encode_loop room buffer encoded v ≡ none
unfolding encode_loop
encode_loop_overflow zero v encoded buffer h = refl
encode_loop_overflow (suc room) v encoded buffer h = ground (
  arith,
  two_pow_pos room,
  pow-suc 128 room,
  one-le-pow room 128 (omega arith),
  encode_loop_overflow room (v / 128) (encoded + 1) (buffer ++ bit_or (bit_and v 0x7f) 0x80 ∷ [])
      (omega (arith, pow-suc 128 room)),
)

-- A buffer of `room` bytes is overrun by every value from 128 ^ room on.
pub encode_varint_overflow : (room v : ℕ) → 128 ^ room ≤ v → encode_varint room v ≡ none
unfolding encode_varint
encode_varint_overflow room v h = encode_loop_overflow room v 0 [] h
