-- ===== src/Server/Varint/Truncated.antt =====
-- A length prefix that the peer cuts short.
use monitoring_tool.Prelude.{
  ℕ, ◌+◌, ◌*◌, ◌^◌, ◌≤◌, ◌<◌, ◌≡◌, ap, some, List, [], ◌∷◌, arith, length, All,
}
use native.Mathlib.Nat.{pow-le-pow_right}
use monitoring_tool.Server.Varint.{decode_loop, decode_varint}
use monitoring_tool.Server.Varint.RoundTrip.{decode_inner, shift_seven}

-- The number that groups of seven bits stand for, lowest first.
unfoldable pub from_groups : List ℕ → ℕ
from_groups [] = 0
from_groups (g ∷ gs) = g + 128 * from_groups gs

-- Groups with the mark that says more bytes follow.
unfoldable pub marked : List ℕ → List ℕ
marked [] = []
marked (g ∷ gs) = (g + 128) ∷ marked gs

decode_loop-marked :
    (gs : List ℕ) (s value : ℕ)
    → All (λ g. g < 128) gs
    → s + 7 * length gs ≤ 28
    → value < 2 ^ s
    → decode_loop (marked gs) value s ≡ some (value + from_groups gs * 2 ^ s, [])
unfolding marked from_groups decode_loop
decode_loop-marked [] s value h short room = ground arith
decode_loop-marked (g ∷ gs) s value h short room = ground (
  arith,
  shift_seven s,
  fits,
  decode_inner g s value (marked gs) h.0 (omega arith) room fits,
  decode_loop-marked gs (s + 7) (value + g * 2 ^ s) h.1 (omega arith) grown,
  ap (λ (t : ℕ). from_groups gs * t) (shift_seven s),
)
  where
    scale : 2 ^ s ≤ 2 ^ 21
    scale = pow-le-pow_right (omega arith) {j = 21} (omega arith)

    fits : g * 2 ^ s < 2 ^ 31
    fits = grind (arith, scale)

    grown : value + g * 2 ^ s < 2 ^ (s + 7)
    grown = rw (shift_seven s) (grind arith)

-- A peer that closes the connection after one to four marked bytes is not noticed: the answer is the
-- number that the bytes so far stand for, as if the prefix were complete.
pub decode_varint_truncated :
    (gs : List ℕ)
    → All (λ g. g < 128) gs
    → length gs ≤ 4
    → decode_varint (marked gs) ≡ some (from_groups gs, [])
unfolding decode_varint
decode_varint_truncated gs h short =
    ground (arith, decode_loop-marked gs 0 0 h (omega arith) (omega arith))
