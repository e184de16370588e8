-- ===== src/Capture/Tests.antt =====
-- One frame through `packet_preprocess`, and the theorems at it.
use mathlib.Core.Option
use monitoring_tool.Http
use monitoring_tool.Http.Inside.{is_request-Returns, is_response-Returns}
use monitoring_tool.Prelude.{
  ℕ, ap, true, zero, suc, Option, ◌≡◌, ◌≢◌, refl, Bool, false, none, some, List, [], ◌∷◌, ◌++◌,
  ◌==◌, arith,
}
use monitoring_tool.Packet.{Packet, packet_new, req}
use monitoring_tool.Packet.Headers.{
  EthHdr, IpHdr, bytes_at, packet_parse_ethhdr, packet_parse_iphdr, packet_parse_tcphdr,
}
use monitoring_tool.Packet.Bounds.{ip_layout, tcp_layout}
use monitoring_tool.Packet.Tests.{one_ip, one_tcp}
use monitoring_tool.Capture.{Protocol, Sniffer, Fate, queued, dispatch, packet_preprocess}
use monitoring_tool.Capture.Safety.{StaysInside, packet_preprocess_safe}
use monitoring_tool.Capture.Fates.{Dispatched, dispatch-Dispatched}

-- A protocol on port 80 whose requests begin with 'G'.
abbrev begins_with_g : List ℕ → ℕ → Option Bool
begins_with_g [] zero = some false
begins_with_g [] (suc n) = none
begins_with_g (c ∷ cs) n = some (c == b'G')

abbrev never : List ℕ → ℕ → Option Bool
never cs n = some false

abbrev web : Protocol
web = record { server_ports = 80 ∷ []; is_request = begins_with_g; is_response = never; pq = [] }

-- The recognisers of HTTP, by whether they answer NULL.
abbrev is_found : Option ℕ → Bool
is_found none = false
is_found (some head_end) = true

abbrev http : Protocol
http = record {
  server_ports = 80 ∷ [];
  is_request = λ cp n. Option.map is_found (Http.is_request n cp);
  is_response = λ cp n. Option.map is_found (Http.is_response n cp);
  pq = [];
}

http-StaysInside : StaysInside http
http-StaysInside = record {
  request = λ cp n h.
      let (head_end, e) = is_request-Returns n cp h in
      (is_found head_end, ap (Option.map is_found) e);
  response = λ cp n h.
      let (head_end, e) = is_response-Returns n cp h in
      (is_found head_end, ap (Option.map is_found) e);
}

abbrev http_only : Sniffer
http_only = record { protocols = http ∷ []; req_n = 0; rsp_n = 0 }

abbrev idle : Sniffer
idle = record { protocols = web ∷ []; req_n = 0; rsp_n = 0 }

abbrev ethernet : List ℕ
ethernet = 1 ∷ 1 ∷ 1 ∷ 1 ∷ 1 ∷ 1 ∷ 2 ∷ 2 ∷ 2 ∷ 2 ∷ 2 ∷ 2 ∷ 8 ∷ 0 ∷ []

-- "GET" behind three headers.
unfoldable frame : List ℕ
unfolding ip_layout tcp_layout
frame = ethernet ++ ip_layout one_ip (tcp_layout one_tcp (b'G' ∷ b'E' ∷ b'T' ∷ []))

-- The packet of the frame before the protocols see it.
abbrev parsed : Packet
parsed = record packet_new {
  raw_len = 57;
  saddr = 0x0a000001;
  daddr = 0x0a000002;
  sport = 40000;
  dport = 80;
  ip_hl = 20;
  ip_tol = 43;
  ip_pro = 6;
  tcp_seq = 1000;
  tcp_flags = 0x18;
  tcp_win = 1024;
  tcp_hl = 20;
  tcp_dl = 3;
}

abbrev request : Packet
request = record parsed {
  type = req;
  tcp_odata = some (b'G' ∷ b'E' ∷ b'T' ∷ 0 ∷ []);
  tcp_data = some 0;
}

abbrev waiting_request : Sniffer
waiting_request = record { protocols = record web { pq = request ∷ [] } ∷ []; req_n = 1; rsp_n = 0 }

enters : packet_preprocess idle frame 0 0 57 ≡ some (waiting_request, Fate.queued)
unfolding packet_preprocess frame packet_parse_ethhdr packet_parse_iphdr packet_parse_tcphdr
enters = refl

packet_preprocess_safe_example : packet_preprocess http_only frame 0 0 57 ≢ none
unfolding frame packet_parse_iphdr packet_parse_tcphdr
packet_preprocess_safe_example =
    packet_preprocess_safe http_only frame 0 0 57 one_ip one_tcp refl refl (omega arith)
      (omega arith) (omega arith) (omega arith) (omega arith) (http-StaysInside, tt)

-- An IP header of 24 bytes, and 54 bytes in all.
abbrev with_option : IpHdr
with_option = record one_ip { ihl = 6 }

abbrev an_ethernet : EthHdr
an_ethernet = record {
  ether_dhost = 1 ∷ 1 ∷ 1 ∷ 1 ∷ 1 ∷ 1 ∷ [];
  ether_shost = 2 ∷ 2 ∷ 2 ∷ 2 ∷ 2 ∷ 2 ∷ [];
  ether_type = 0x0800;
}

unfoldable short_frame : List ℕ
unfolding ip_layout tcp_layout
short_frame = ethernet ++ ip_layout with_option (tcp_layout one_tcp [])

abbrev tcp_part : List ℕ
tcp_part =
    0 ∷ 0 ∷ 0 ∷ 0 ∷ 0 ∷ 0 ∷ 0 ∷ 0 ∷ 0 ∷ 0 ∷ 0 ∷ 0 ∷ 0 ∷ 0 ∷ 0 ∷ 0 ∷ 0 ∷ 0 ∷ 0 ∷ 0 ∷ b'G' ∷ b'E'
    ∷ b'T' ∷ []

dispatch-Dispatched_example : Dispatched idle parsed waiting_request queued
unfolding dispatch bytes_at
dispatch-Dispatched_example = dispatch-Dispatched idle tcp_part parsed waiting_request queued refl
