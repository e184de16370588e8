-- ===== src/Flow/Owns.antt =====
-- Which packets a flow holds and which it frees.

use monitoring_tool.Prelude.{
  ℕ, suc, ◌+◌, ◌^◌, ◌<◌, ◌≡◌, refl, ap, ◌∙◌, Bool, true, false, Option, some, List, [], ◌∷◌, ◌++◌,
  arith, ltb, ◌==◌, if◌then◌else◌, length, length-append,
}
use monitoring_tool.Packet.{Packet}
use monitoring_tool.Order.SeqPkt.{has_bit}
use monitoring_tool.Tcp.Advance.{IsValid, tcp_order-Advances}
use monitoring_tool.Queue.Fifo.{last_position, take-all}
use monitoring_tool.Flow.{
  Chain, Flow, Added, Ending, stays, dropped, finished, hook, count_packet, seq_of, cal_packet,
}

-- The number is the chain's length and the end points to its last packet.
pub record IsChain (c : Chain) : Type 0 where
  pub n : c.n ≡ length c.first
  pub end : c.end ≡ last_position c.first

pub record IsFlow (f : Flow) : Type 0 where
  pub order : IsValid f.order
  pub src : IsChain f.pkt_src
  pub dst : IsChain f.pkt_dst

pub hook-shape :
    (first : List ℕ) (c : Chain) (ptr : ℕ)
    → c.first ≡ first
    → IsChain c
    → c.n + 1 < 2 ^ 32
    → (c' : Chain) × (hook c ptr ≡ some c') × IsChain c' × (c'.first ≡ first ++ ptr ∷ [])
unfolding hook
hook-shape [] c ptr e h fits =
    let empty : c.n ≡ 0 = h.n ∙ ap length e in
    (
      record { first = ptr ∷ []; end = some 0; n = 1 },
      rw empty,
      record { n = refl; end = refl },
      refl,
    )
hook-shape (x ∷ xs) c ptr e h fits =
    let full : c.n ≡ suc (length xs) = h.n ∙ ap length e in
    let at_last : c.end ≡ some (length xs) = h.end ∙ ap last_position e in
    (
      record { first = (x ∷ xs) ++ ptr ∷ []; end = some (length xs + 1); n = c.n + 1 },
      ground (arith, full, at_last, e, take-all (x ∷ xs)),
      record {
        n = omega (arith, full, length-append xs (ptr ∷ []));
        end = ap {B = Option ℕ} some (omega (arith, length-append xs (ptr ∷ [])));
      },
      refl,
    )

-- What `cal_packet` leaves alone.
pub record Calculated (f : Flow) (made : Option Flow) : Type 0 where
  pub after : Flow
  pub returns : made ≡ some after
  pub order : IsValid after.order
  pub src : after.pkt_src ≡ f.pkt_src
  pub dst : after.pkt_dst ≡ f.pkt_dst

pub cal_packet-Calculated :
    (now : ℕ × ℕ) (f : Flow) (p : Packet) (src : Bool)
    → IsValid f.order
    → Calculated f (cal_packet now f p src)
unfolding cal_packet count_packet
cal_packet-Calculated now f p true h =
    let a = tcp_order-Advances f.order (seq_of p) true h in
    record {
      after = record (count_packet now f p true) { order = a.after };
      returns = rw a.returns;
      order = a.valid;
      src = refl;
      dst = refl;
    }
cal_packet-Calculated now f p false h =
    let a = tcp_order-Advances f.order (seq_of p) false h in
    record {
      after = record (count_packet now f p false) { order = a.after };
      returns = rw a.returns;
      order = a.valid;
      src = refl;
      dst = refl;
    }

-- How often a packet is in a list.
abbrev pub times : ℕ → List ℕ → ℕ
times x [] = 0
times x (y ∷ ys) = if x == y then suc (times x ys) else times x ys

pub times-append : (x : ℕ) (xs ys : List ℕ) → times x (xs ++ ys) ≡ times x xs + times x ys
times-append x [] ys = omega arith
times-append x (y ∷ xs) ys = ground (arith, times-append x xs ys)

-- The packets in the chains of a flow, and those that are left of it.
abbrev pub held : Flow → List ℕ
held f = f.pkt_dst.first ++ f.pkt_src.first

abbrev pub remaining : Ending → Flow → List ℕ
remaining stays f = held f
remaining finished f = held f
remaining dropped f = []

-- The ending by the flags of the packet, bit 2 for RST and bit 0 for FIN.
abbrev pub ending_of : Flow → Packet → Ending
ending_of f p =
    if has_bit 2 p.tcp_flags
    then (if ltb f.pkts_src 4 then dropped else finished)
    else if has_bit 0 p.tcp_flags
    then finished
    else stays

abbrev pub is_dropped : Ending → Bool
is_dropped stays = false
is_dropped dropped = true
is_dropped finished = false

-- What `add_packet` makes of a flow and a packet at `ptr`.
pub record Settled (f : Flow) (ptr : ℕ) (ending : Ending) (made : Option Added) : Type 0 where
  pub after : Added
  pub returns : made ≡ some after
  pub valid : IsFlow after.flow
  pub owned :
      (x : ℕ) → times x (after.freed ++ remaining ending after.flow) ≡ times x (ptr ∷ held f)
  pub ends : after.ending ≡ ending
  pub reads : after.reads_deleted ≡ is_dropped ending
