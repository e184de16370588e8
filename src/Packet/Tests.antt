-- ===== src/Packet/Tests.antt =====
-- The headers of one packet.
use monitoring_tool.Prelude.{ℕ, ◌<◌, ◌≡◌, ◌↔◌, none, some, List, [], ◌∷◌, arith, length}
use monitoring_tool.Packet.Headers.{
  IpHdr, TcpHdr, packet_parse_ethhdr, packet_parse_iphdr, packet_parse_tcphdr,
}
use monitoring_tool.Packet.Bounds.{ip_layout, tcp_layout, parse_bounds, parse_layout}

abbrev pub one_ip : IpHdr
one_ip = record {
  ihl = 5;
  version = 4;
  tos = 0;
  tot_len = 43;
  id = 1;
  frag_off = 0;
  ttl = 64;
  protocol = 6;
  check = 0;
  saddr = 0x0a000001;
  daddr = 0x0a000002;
}

abbrev pub one_tcp : TcpHdr
one_tcp = record {
  th_sport = 40000;
  th_dport = 80;
  th_seq = 1000;
  th_ack = 0;
  th_x2 = 0;
  th_off = 5;
  th_flags = 0x18;
  th_win = 1024;
  th_sum = 0;
  th_urp = 0;
}

abbrev two_bytes : List ℕ
two_bytes = 1 ∷ 2 ∷ []

parse_layout_example :
    (packet_parse_iphdr (ip_layout one_ip (7 ∷ [])) ≡ some one_ip)
    × (packet_parse_tcphdr (tcp_layout one_tcp (7 ∷ [])) ≡ some one_tcp)
parse_layout_example = parse_layout one_ip one_tcp (7 ∷ []) (omega arith) (omega arith)

parse_bounds_example :
    ((packet_parse_ethhdr two_bytes ≡ none) ↔ (length two_bytes < 14))
    × ((packet_parse_iphdr two_bytes ≡ none) ↔ (length two_bytes < 20))
    × ((packet_parse_tcphdr two_bytes ≡ none) ↔ (length two_bytes < 20))
parse_bounds_example = parse_bounds two_bytes
