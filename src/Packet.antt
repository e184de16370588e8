-- ===== src/Packet.antt =====
-- Packets, c-http-sniffer/include/packet.h and src/packet.c: the record that the program keeps of a
-- captured packet. Integers of a fixed width are numbers, kept below 2 ^ width by whatever writes them.
pub mod Headers
pub mod Bounds
pub mod Tests
use monitoring_tool.Prelude.{ℕ, Option, none, List}

pub record Packet : Type 0 where
  pub cap_sec : ℕ
  pub cap_usec : ℕ
  pub raw_len : ℕ
  pub saddr : ℕ
  pub daddr : ℕ
  pub sport : ℕ
  pub dport : ℕ
  pub ip_hl : ℕ
  pub ip_tol : ℕ
  pub ip_pro : ℕ
  pub ip_pid : ℕ
  pub tcp_seq : ℕ
  pub tcp_ack : ℕ
  pub tcp_flags : ℕ
  pub tcp_win : ℕ
  pub tcp_hl : ℕ
  pub tcp_dl : ℕ
  pub type : ℕ
  -- `tcp_odata` is the buffer allocated for the payload, `tcp_data` an offset into it; `none` is NULL.
  -- The link to the next packet of a queue is the queue's list.
  pub tcp_odata : Option (List ℕ)
  pub tcp_data : Option ℕ

-- The flags of a TCP header, and the values of `type`.
abbrev pub th_fin : ℕ
th_fin = 0x01

abbrev pub th_syn : ℕ
th_syn = 0x02

abbrev pub th_rst : ℕ
th_rst = 0x04

abbrev pub th_ack : ℕ
th_ack = 0x10

abbrev pub req : ℕ
req = 0x01

abbrev pub rsp : ℕ
rsp = 0x10

-- A packet of zeros.
abbrev pub packet_new : Packet
packet_new = record {
  cap_sec = 0;
  cap_usec = 0;
  raw_len = 0;
  saddr = 0;
  daddr = 0;
  sport = 0;
  dport = 0;
  ip_hl = 0;
  ip_tol = 0;
  ip_pro = 0;
  ip_pid = 0;
  tcp_seq = 0;
  tcp_ack = 0;
  tcp_flags = 0;
  tcp_win = 0;
  tcp_hl = 0;
  tcp_dl = 0;
  type = 0;
  tcp_odata = none;
  tcp_data = none;
}
