-- ===== src/Packet/Headers.antt =====
-- The headers of a packet, c-http-sniffer/include/packet.h and src/packet.c. Memory is the list of the
-- bytes from a pointer to the end of the buffer that it points into; `none` is a read behind that end.
-- Fields in network byte order go through `ntohs` and `ntohl` on a little-endian machine.
use monitoring_tool.Prelude.{
  ℕ, zero, suc, ◌+◌, ◌*◌, ◌/◌, ◌%◌, ◌^◌, Option, some, List, [], ◌∷◌, get_elem?,
}
use monitoring_tool.Prelude.Partial.{◌>>=◌}

-- Memory from a pointer on, as the list of the bytes that may be read.
abbrev pub u8_at : List ℕ → ℕ → Option ℕ
u8_at = get_elem?

-- `ntohs` and `ntohl` of a field that is stored in network byte order.
unfoldable pub u16_at : List ℕ → ℕ → Option ℕ
u16_at p i = do hi ← u8_at p i; lo ← u8_at p (i + 1); some (hi * 2 ^ 8 + lo)

unfoldable pub u32_at : List ℕ → ℕ → Option ℕ
unfolding u16_at
u32_at p i = do hi ← u16_at p i; lo ← u16_at p (i + 2); some (hi * 2 ^ 16 + lo)

pub record EthHdr : Type 0 where
  pub ether_dhost : List ℕ
  pub ether_shost : List ℕ
  pub ether_type : ℕ

pub record IpHdr : Type 0 where
  pub ihl : ℕ
  pub version : ℕ
  pub tos : ℕ
  pub tot_len : ℕ
  pub id : ℕ
  pub frag_off : ℕ
  pub ttl : ℕ
  pub protocol : ℕ
  pub check : ℕ
  pub saddr : ℕ
  pub daddr : ℕ

pub record TcpHdr : Type 0 where
  pub th_sport : ℕ
  pub th_dport : ℕ
  pub th_seq : ℕ
  pub th_ack : ℕ
  pub th_x2 : ℕ
  pub th_off : ℕ
  pub th_flags : ℕ
  pub th_win : ℕ
  pub th_sum : ℕ
  pub th_urp : ℕ

-- `memcpy` of a field of bytes.
unfoldable pub bytes_at : List ℕ → (i n : ℕ) → Option (List ℕ)
bytes_at p i zero = some []
bytes_at p i (suc n) = do b ← u8_at p i; bs ← bytes_at p (i + 1) n; some (b ∷ bs)

-- The sizes of the three structs.
abbrev pub ethhdr_size : ℕ
ethhdr_size = 14

abbrev pub iphdr_size : ℕ
iphdr_size = 20

abbrev pub tcphdr_size : ℕ
tcphdr_size = 20

unfoldable pub packet_parse_ethhdr : List ℕ → Option EthHdr
unfolding bytes_at u16_at
packet_parse_ethhdr p = do
  dhost ← bytes_at p 0 6
  shost ← bytes_at p 6 6
  ether_type ← u16_at p 12
  some (record { ether_dhost = dhost; ether_shost = shost; ether_type = ether_type })

-- A bit field takes the low bits first.
unfoldable pub packet_parse_iphdr : List ℕ → Option IpHdr
unfolding u16_at u32_at
packet_parse_iphdr p = do
  b0 ← u8_at p 0
  tos ← u8_at p 1
  tot_len ← u16_at p 2
  id ← u16_at p 4
  frag_off ← u16_at p 6
  ttl ← u8_at p 8
  protocol ← u8_at p 9
  check ← u16_at p 10
  saddr ← u32_at p 12
  daddr ← u32_at p 16
  some (record {
    ihl = b0 % 16;
    version = b0 / 16;
    tos = tos;
    tot_len = tot_len;
    id = id;
    frag_off = frag_off;
    ttl = ttl;
    protocol = protocol;
    check = check;
    saddr = saddr;
    daddr = daddr;
  })

unfoldable pub packet_parse_tcphdr : List ℕ → Option TcpHdr
unfolding u16_at u32_at
packet_parse_tcphdr p = do
  sport ← u16_at p 0
  dport ← u16_at p 2
  sequence ← u32_at p 4
  ack ← u32_at p 8
  b12 ← u8_at p 12
  flags ← u8_at p 13
  win ← u16_at p 14
  sum ← u16_at p 16
  urp ← u16_at p 18
  some (record {
    th_sport = sport;
    th_dport = dport;
    th_seq = sequence;
    th_ack = ack;
    th_x2 = b12 % 16;
    th_off = b12 / 16;
    th_flags = flags;
    th_win = win;
    th_sum = sum;
    th_urp = urp;
  })
