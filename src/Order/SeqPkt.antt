-- ===== src/Order/SeqPkt.antt =====
-- What `seq_pkt` and `order_free` make of their arguments.
use Prim.Native.Nat.{bit_and}
use mathlib.Core.List.{append_assoc, append-nil}
use monitoring_tool.Prelude.{
  ℕ, ◌+◌, ◌*◌, ◌/◌, ◌%◌, ◌^◌, ◌≡◌, refl, sym, ap, ◌∙◌, ◌||◌, Bool, List, [], ◌∷◌, ◌++◌, arith, ◌==◌,
  if◌then◌else◌,
}
use monitoring_tool.Prelude.Bits.{low_mask, high_mask}
use monitoring_tool.Packet.{Packet}
use monitoring_tool.Order.{Seq, Order, free_chain, order_free, seq_pkt}

-- The bit at a power of two.
abbrev pub has_bit : ℕ → ℕ → Bool
has_bit k flags = flags / 2 ^ k % 2 == 1

pub flag_mask : (k flags : ℕ) → bit_and flags (1 * 2 ^ k) ≡ flags / 2 ^ k % 2 * 2 ^ k
flag_mask k flags = high_mask k flags 1 ∙ ap (λ (t : ℕ). t * 2 ^ k) (low_mask 1 (flags / 2 ^ k))

-- `seq_pkt` gives a packet the numbers from its sequence number on that its payload takes, and one more
-- if SYN (bit 1) or FIN (bit 0) is set, modulo 2 ^ 32; `ack` is bit 4 of the flags.
pub seq_pkt_span :
    (p : Packet)
    → ((seq_pkt p).seq ≡ p.tcp_seq)
      × ((seq_pkt p).nxt_seq
          ≡ (p.tcp_seq
              + p.tcp_dl
              + (if has_bit 1 p.tcp_flags || has_bit 0 p.tcp_flags then 1 else 0))
            % 2 ^ 32)
      × ((seq_pkt p).ack ≡ has_bit 4 p.tcp_flags)
unfolding seq_pkt
seq_pkt_span p = (
  refl,
  ground (arith, flag_mask 0 p.tcp_flags, flag_mask 1 p.tcp_flags),
  ground (arith, flag_mask 4 p.tcp_flags),
)

free_chain-append : (freed chain : List Seq) → free_chain freed chain ≡ freed ++ chain
unfolding free_chain
free_chain-append freed [] = sym (append-nil freed)
free_chain-append freed (s ∷ chain) =
    free_chain-append (freed ++ s ∷ []) chain ∙ append_assoc freed (s ∷ []) chain

-- `order_free` frees every record of both lists once, those of the source first.
pub order_free_lem : (o : Order) → order_free o ≡ o.src ++ o.dst
unfolding order_free
order_free_lem o =
    free_chain-append (free_chain [] o.src) o.dst
    ∙ ap (λ (l : List Seq). l ++ o.dst) (free_chain-append [] o.src)
