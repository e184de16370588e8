-- ===== src/Util/RoundTrip.antt =====
-- An address that `ip_ntos` printed, read back by `ip_ston`.
use Prim.Native.Nat.{bit_and}
use mathlib.Core.List.{append-nil}
use native.Mathlib.Nat.{mul-div_cancel}
use monitoring_tool.Prelude.{
  ℕ, ◌+◌, ◌*◌, ◌/◌, ◌%◌, ◌^◌, ◌<◌, ◌≡◌, refl, sym, ◌∙◌, none, some, List, [], ◌∷◌, ◌++◌, arith, ltb,
  ◌&&◌, if◌then◌else◌,
}
use monitoring_tool.Prelude.Bits.{low_mask, high_mask, or_disjoint, disjoint_or, two_pow_pos}
use monitoring_tool.Util.{Parts, decimal, part_step, parts_loop, concoct, ip_ston, ip_ntos}
use monitoring_tool.Util.Decimal.{number-decimal}

-- The four bytes as `ip_ntos` takes them out of the word.
pub octet : (n k : ℕ) → bit_and n (0xff * 2 ^ k) / 2 ^ k ≡ n / 2 ^ k % 256
octet n k =
    rw (high_mask k n 0xff, low_mask 8 (n / 2 ^ k))
      (mul-div_cancel (n / 2 ^ k % 256) (two_pow_pos k))

-- A pass over one printed byte with a dot behind it, and over the last.
module _ (next : List ℕ → List ℕ → Parts) (parts : List ℕ) (x : ℕ) (small : x < 2 ^ 32) where
  part_dot :
      (rest : List ℕ)
      → part_step next parts (decimal 10 x ++ (b'.' ∷ rest)) ≡ next (parts ++ x ∷ []) rest
  unfolding part_step
  part_dot rest =
      let p =
        number-decimal 9 (b'.' ∷ rest) (refl, omega arith, omega arith) x (omega arith)
          (omega arith) in
      rw p.shape (rw (p.parse, p.digit))

  part_last : part_step next parts (decimal 10 x) ≡ some (parts, x, [])
  unfolding part_step
  part_last =
      let p = number-decimal 9 [] (refl, omega arith, omega arith) x (omega arith) (omega arith) in
      rw (sym (append-nil (decimal 10 x)) ∙ p.shape) (rw (p.parse, p.digit))

-- Three parts and a last value: each must fit into a byte.
pub concoct_four :
    (p0 p1 p2 val : ℕ)
    → concoct (p0 ∷ p1 ∷ p2 ∷ []) val ≡ (
        if ltb p0 256 && ltb p1 256 && ltb p2 256 && ltb val 256
        then p0 * 2 ^ 24 + p1 * 2 ^ 16 + p2 * 2 ^ 8 + val
        else 0)
unfolding concoct
concoct_four p0 p1 p2 val = ground (
  arith,
  disjoint_or 24 (p1 * 2 ^ 16) p0,
  disjoint_or 16 (p2 * 2 ^ 8) (p0 * 2 ^ 8 + p1),
  or_disjoint 8 val (p0 * 2 ^ 16 + p1 * 2 ^ 8 + p2),
)

-- Four numbers printed with dots between them.
abbrev pub dotted : ℕ → ℕ → ℕ → ℕ → List ℕ
dotted a b c d =
    decimal 10 a ++ (b'.' ∷ (decimal 10 b ++ (b'.' ∷ (decimal 10 c ++ (b'.' ∷ decimal 10 d)))))

-- A dotted text of four u_int32_t is read as the four bytes of an address, most significant first, if
-- each of the numbers fits into a byte; otherwise the answer is 0.
pub ip_ston-dotted :
    (a b c d : ℕ)
    → a < 2 ^ 32
    → b < 2 ^ 32
    → c < 2 ^ 32
    → d < 2 ^ 32
    → ip_ston (dotted a b c d) ≡ (
        if ltb a 256 && ltb b 256 && ltb c 256 && ltb d 256
        then a * 2 ^ 24 + b * 2 ^ 16 + c * 2 ^ 8 + d
        else 0)
unfolding ip_ston
ip_ston-dotted a b c d ha hb hc hd =
    rw
      (part_dot (parts_loop 2) [] a ha
        (decimal 10 b ++ (b'.' ∷ (decimal 10 c ++ (b'.' ∷ decimal 10 d)))))
      (rw (part_dot (parts_loop 1) (a ∷ []) b hb (decimal 10 c ++ (b'.' ∷ decimal 10 d))) (
        rw (part_dot (parts_loop 0) (a ∷ b ∷ []) c hc (decimal 10 d))
          (rw (part_last (λ parts cp. none) (a ∷ b ∷ c ∷ []) d hd) (concoct_four a b c d))))

ip_ston-dotted_bytes :
    (a b c d : ℕ)
    → a < 256
    → b < 256
    → c < 256
    → d < 256
    → ip_ston (dotted a b c d) ≡ a * 2 ^ 24 + b * 2 ^ 16 + c * 2 ^ 8 + d
ip_ston-dotted_bytes a b c d ha hb hc hd =
    ip_ston-dotted a b c d (omega arith) (omega arith) (omega arith) (omega arith) ∙ ground arith

-- Every address is read back from its printed form: `ip_ston` inverts `ip_ntos` on all u_int32_t.
pub ip_ston-ip_ntos : (n : ℕ) → n < 2 ^ 32 → ip_ston (ip_ntos n) ≡ n
unfolding ip_ntos
ip_ston-ip_ntos n h =
    rw (octet n 24, octet n 16, octet n 8, octet n 0)
      (ip_ston-dotted_bytes (n / 2 ^ 24 % 256) (n / 2 ^ 16 % 256) (n / 2 ^ 8 % 256)
          (n / 2 ^ 0 % 256) (omega arith) (omega arith) (omega arith) (omega arith)
        ∙ omega arith)
