-- ===== src/Order.antt =====
-- Sequence records and the two ordered lists of a TCP stream, c-http-sniffer/include/order.h and
-- src/order.c. A chain of `next` pointers is a list; `last_src` and `last_dst`, which point into a
-- chain, are positions in it (`none` is NULL). A record holds the packet that its `pkt` points to.
pub mod SeqPkt
use Prim.Native.Nat.{bit_and}
use monitoring_tool.Prelude.{
  ℕ, ◌+◌, ◌%◌, ◌^◌, Bool, false, ◌||◌, Option, none, some, List, [], ◌∷◌, ◌++◌, ◌==◌, if◌then◌else◌,
}
use monitoring_tool.Packet.{Packet, th_fin, th_syn, th_ack}

pub record Seq : Type 0 where
  pub pkt : Option Packet
  pub seq : ℕ
  pub nxt_seq : ℕ
  pub ack : Bool
  pub th_flags : ℕ
  pub cap_sec : ℕ
  pub cap_usec : ℕ
  pub processed : Bool
  pub size : ℕ

pub record Order : Type 0 where
  pub src : List Seq
  pub dst : List Seq
  pub last_src : Option ℕ
  pub last_dst : Option ℕ
  pub num : ℕ
  pub rst : Bool

abbrev pub seq_new : Seq
seq_new = record {
  pkt = none;
  seq = 0;
  nxt_seq = 0;
  ack = false;
  th_flags = 0;
  cap_sec = 0;
  cap_usec = 0;
  processed = false;
  size = 0;
}

abbrev pub order_new : Order
order_new = record { src = []; dst = []; last_src = none; last_dst = none; num = 0; rst = false }

-- One of the two loops of `order_free`: the records in the order in which they are freed.
unfoldable pub free_chain : List Seq → List Seq → List Seq
free_chain freed [] = freed
free_chain freed (s ∷ chain) = free_chain (freed ++ s ∷ []) chain

-- All the records that are freed; the packets are left to `packet_free`.
unfoldable pub order_free : Order → List Seq
unfolding free_chain
order_free o = free_chain (free_chain [] o.src) o.dst

-- `seq_pkt` on a packet; SYN and FIN count for one number each, but for one in all.
unfoldable pub seq_pkt : Packet → Seq
seq_pkt p = record {
  pkt = some p;
  seq = p.tcp_seq;
  nxt_seq =
      if bit_and p.tcp_flags th_syn == th_syn || bit_and p.tcp_flags th_fin == th_fin
      then (p.tcp_seq + p.tcp_dl + 1) % 2 ^ 32
      else (p.tcp_seq + p.tcp_dl) % 2 ^ 32;
  ack = bit_and p.tcp_flags th_ack == th_ack;
  th_flags = p.tcp_flags;
  cap_sec = p.cap_sec;
  cap_usec = p.cap_usec;
  processed = false;
  size = p.tcp_dl;
}
