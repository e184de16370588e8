-- ===== src/Packet/Bounds.antt =====
-- How much memory the header parsers read, and what they make of it.

use monitoring_tool.Prelude.{
  ℕ, zero, suc, ◌+◌, ◌*◌, ◌/◌, ◌%◌, ◌^◌, ◌≤◌, ◌<◌, ◌≡◌, ◌≢◌, ◌↔◌, refl, none, some, List, [], ◌∷◌,
  arith, length,
}
use monitoring_tool.Packet.Headers.{
  IpHdr, TcpHdr, u8_at, u16_at, u32_at, bytes_at, packet_parse_ethhdr, packet_parse_iphdr,
  packet_parse_tcphdr,
}

-- A header of `n` bytes given by a list that is long enough.
u8_at-some : (p : List ℕ) (i : ℕ) → i < length p → (b : ℕ) × (u8_at p i ≡ some b)
u8_at-some [] i h = absurd (omega arith)
u8_at-some (b ∷ p) zero h = (b, refl)
u8_at-some (b ∷ p) (suc i) h = u8_at-some p i (omega arith)

u8_at-none : (p : List ℕ) (i : ℕ) → length p ≤ i → u8_at p i ≡ none
u8_at-none [] i h = refl
u8_at-none (b ∷ p) zero h = absurd (omega arith)
u8_at-none (b ∷ p) (suc i) h = u8_at-none p i (omega arith)

u16_at-some : (p : List ℕ) (i : ℕ) → i + 1 < length p → (v : ℕ) × (u16_at p i ≡ some v)
unfolding u16_at
u16_at-some p i h =
    let (a, e) = u8_at-some p i (omega arith) in
    let (b, f) = u8_at-some p (i + 1) h in (a * 2 ^ 8 + b, rw (e, f))

u32_at-some : (p : List ℕ) (i : ℕ) → i + 2 + 1 < length p → (v : ℕ) × (u32_at p i ≡ some v)
unfolding u32_at
u32_at-some p i h =
    let (a, e) = u16_at-some p i (omega arith) in
    let (b, f) = u16_at-some p (i + 2) h in (a * 2 ^ 16 + b, rw (e, f))

u16_at-none : (p : List ℕ) (i : ℕ) → length p ≤ i + 1 → u16_at p i ≡ none
unfolding u16_at
u16_at-none p i h = ground (arith, u8_at-none p (i + 1) h)

u32_at-none : (p : List ℕ) (i : ℕ) → length p ≤ i + 2 + 1 → u32_at p i ≡ none
unfolding u32_at
u32_at-none p i h = ground (arith, u16_at-none p (i + 2) h)

pub bytes_at-some :
    (p : List ℕ) (i n : ℕ) → i + n ≤ length p → (bs : List ℕ) × (bytes_at p i n ≡ some bs)
unfolding bytes_at
bytes_at-some p i zero h = ([], refl)
bytes_at-some p i (suc n) h =
    let (b, e) = u8_at-some p i (omega arith) in
    let (bs, f) = bytes_at-some p (i + 1) n (omega arith) in (b ∷ bs, rw (e, f))

-- Each parser reads its struct and nothing behind it.
pub parse_ethhdr-ne-none : (p : List ℕ) → 14 ≤ length p → packet_parse_ethhdr p ≢ none
unfolding packet_parse_ethhdr
parse_ethhdr-ne-none p h =
    let (d, e1) = bytes_at-some p 0 6 (omega arith) in
    let (s, e2) = bytes_at-some p 6 6 (omega arith) in
    let (t, e3) = u16_at-some p 12 (omega arith) in rw (e1, e2, e3) (λ q. cc)

pub parse_iphdr-ne-none : (p : List ℕ) → 20 ≤ length p → packet_parse_iphdr p ≢ none
unfolding packet_parse_iphdr
parse_iphdr-ne-none p h =
    let (a, e1) = u8_at-some p 0 (omega arith) in
    let (b, e2) = u8_at-some p 1 (omega arith) in
    let (c, e3) = u16_at-some p 2 (omega arith) in
    let (d, e4) = u16_at-some p 4 (omega arith) in
    let (e, e5) = u16_at-some p 6 (omega arith) in
    let (f, e6) = u8_at-some p 8 (omega arith) in
    let (g, e7) = u8_at-some p 9 (omega arith) in
    let (i, e8) = u16_at-some p 10 (omega arith) in
    let (j, e9) = u32_at-some p 12 (omega arith) in
    let (k, e10) = u32_at-some p 16 (omega arith) in
    rw (e1, e2, e3, e4, e5, e6, e7, e8, e9, e10) (λ q. cc)

pub parse_tcphdr-ne-none : (p : List ℕ) → 20 ≤ length p → packet_parse_tcphdr p ≢ none
unfolding packet_parse_tcphdr
parse_tcphdr-ne-none p h =
    let (a, e1) = u16_at-some p 0 (omega arith) in
    let (b, e2) = u16_at-some p 2 (omega arith) in
    let (c, e3) = u32_at-some p 4 (omega arith) in
    let (d, e4) = u32_at-some p 8 (omega arith) in
    let (e, e5) = u8_at-some p 12 (omega arith) in
    let (f, e6) = u8_at-some p 13 (omega arith) in
    let (g, e7) = u16_at-some p 14 (omega arith) in
    let (i, e8) = u16_at-some p 16 (omega arith) in
    let (j, e9) = u16_at-some p 18 (omega arith) in
    rw (e1, e2, e3, e4, e5, e6, e7, e8, e9) (λ q. cc)

parse_ethhdr-short : (p : List ℕ) → length p < 14 → packet_parse_ethhdr p ≡ none
unfolding packet_parse_ethhdr
parse_ethhdr-short p h = ground (arith, u16_at-none p 12 (omega arith))

pub parse_iphdr-short : (p : List ℕ) → length p < 20 → packet_parse_iphdr p ≡ none
unfolding packet_parse_iphdr
parse_iphdr-short p h = ground (arith, u32_at-none p 16 (omega arith))

pub parse_tcphdr-short : (p : List ℕ) → length p < 20 → packet_parse_tcphdr p ≡ none
unfolding packet_parse_tcphdr
parse_tcphdr-short p h = ground (arith, u16_at-none p 18 (omega arith))

-- The parsers read exactly the bytes of their structs: each reads outside its memory exactly where
-- fewer than 14 (Ethernet) or 20 (IP, TCP) bytes are there.
pub parse_bounds :
    (p : List ℕ)
    → ((packet_parse_ethhdr p ≡ none) ↔ (length p < 14))
      × ((packet_parse_iphdr p ≡ none) ↔ (length p < 20))
      × ((packet_parse_tcphdr p ≡ none) ↔ (length p < 20))
parse_bounds p = (
  ((λ e. ground (arith, parse_ethhdr-ne-none p)), parse_ethhdr-short p),
  ((λ e. ground (arith, parse_iphdr-ne-none p)), parse_iphdr-short p),
  ((λ e. ground (arith, parse_tcphdr-ne-none p)), parse_tcphdr-short p),
)

-- The layout of the headers on the wire: a field of two or four bytes has its highest byte first, and
-- of two fields in one byte the second stands in the upper half.
abbrev pub be16 : ℕ → List ℕ → List ℕ
be16 v rest = v / 2 ^ 8 ∷ v % 2 ^ 8 ∷ rest

abbrev pub be32 : ℕ → List ℕ → List ℕ
be32 v rest = be16 (v / 2 ^ 16) (be16 (v % 2 ^ 16) rest)

unfoldable pub ip_layout : IpHdr → List ℕ → List ℕ
ip_layout h rest =
    (h.version * 16 + h.ihl)
    ∷ h.tos
    ∷ be16 h.tot_len (
        be16 h.id
          (be16 h.frag_off (h.ttl ∷ h.protocol ∷ be16 h.check (be32 h.saddr (be32 h.daddr rest)))))

unfoldable pub tcp_layout : TcpHdr → List ℕ → List ℕ
tcp_layout h rest = be16 h.th_sport (
    be16 h.th_dport (
      be32 h.th_seq (
        be32 h.th_ack (
          (h.th_off * 16 + h.th_x2)
          ∷ h.th_flags
          ∷ be16 h.th_win (be16 h.th_sum (be16 h.th_urp rest))))))

-- The parsers read back every IP header and every TCP header from its layout on the wire, whatever
-- follows it; the fields below the upper halves are at most 15.
pub parse_layout :
    (ip : IpHdr) (tcp : TcpHdr) (rest : List ℕ)
    → ip.ihl < 16
    → tcp.th_x2 < 16
    → (packet_parse_iphdr (ip_layout ip rest) ≡ some ip)
      × (packet_parse_tcphdr (tcp_layout tcp rest) ≡ some tcp)
unfolding packet_parse_iphdr packet_parse_tcphdr ip_layout tcp_layout u16_at u32_at
parse_layout ip tcp rest h k = (ground arith, ground arith)
