-- ===== src/Capture.antt =====
-- The first stage of the sniffer, c-http-sniffer/src/main.c: `packet_preprocess` turns a captured frame
-- into a packet of the protocol it belongs to, and puts that into the protocol's queue; with
-- `isPacketOf` and `isHeaderPacket` of src/protocols/protocol.cpp. The two recognisers that each
-- protocol brings are fields of `Protocol`; only whether they answer NULL is used, and they answer
-- `none` where they read outside of the buffer. The buffer is the list of its bytes, and `none` is an
-- access outside of it.
pub mod Safety
pub mod Fates
pub mod Tests
use monitoring_tool.Prelude.{
  ℕ, zero, suc, ◌+◌, ◌-◌, ◌*◌, ◌%◌, ◌^◌, Bool, true, false, not, ◌||◌, Option, none, some, List, [],
  ◌∷◌, ◌++◌, ◌==◌, if◌then◌else◌, drop,
}
use monitoring_tool.Prelude.Partial.{◌>>=◌}
use monitoring_tool.Packet.{Packet, packet_new, req, rsp}
use monitoring_tool.Packet.Headers.{
  EthHdr, IpHdr, TcpHdr, bytes_at, ethhdr_size, packet_parse_ethhdr, packet_parse_iphdr,
  packet_parse_tcphdr,
}

-- What a protocol needs here: its ports, its recognisers on a payload and its length, and its queue.
pub record Protocol : Type 0 where
  pub server_ports : List ℕ
  pub is_request : List ℕ → ℕ → Option Bool
  pub is_response : List ℕ → ℕ → Option Bool
  pub pq : List Packet

abbrev pub has_port : List ℕ → ℕ → Bool
has_port [] port = false
has_port (p ∷ ports) port = p == port || has_port ports port

pub is_packet_of : Protocol → (sport dport : ℕ) → Bool
is_packet_of protocol sport dport =
    has_port protocol.server_ports sport || has_port protocol.server_ports dport

pub is_header_packet : Protocol → List ℕ → ℕ → Option Bool
is_header_packet protocol ptr datalen = do
  request ← protocol.is_request ptr datalen
  response ← protocol.is_response ptr datalen
  some (request || response)

-- What becomes of the packet that `packet_new` allocated.
pub data Fate : Type 0 where
  freed queued leaked : Fate

-- The protocols with their queues, and the two counters.
pub record Sniffer : Type 0 where
  pub protocols : List Protocol
  pub req_n : ℕ
  pub rsp_n : ℕ

-- The header fields in the packet. `caplen` is the captured length.
pub with_ip : Packet → IpHdr → Packet
with_ip pkt ip = record pkt {
  saddr = ip.saddr;
  daddr = ip.daddr;
  ip_hl = ip.ihl * 4;
  ip_tol = ip.tot_len;
  ip_pro = ip.protocol;
}

pub with_tcp : Packet → TcpHdr → Packet
with_tcp pkt tcp = record pkt {
  sport = tcp.th_sport;
  dport = tcp.th_dport;
  tcp_seq = tcp.th_seq;
  tcp_ack = tcp.th_ack;
  tcp_flags = tcp.th_flags;
  tcp_win = tcp.th_win;
  tcp_hl = tcp.th_off * 4;
  tcp_dl = (pkt.ip_tol + 2 ^ 16 - pkt.ip_hl + 2 ^ 16 - tcp.th_off * 4) % 2 ^ 16;
  type = 0;
}

-- The type by the recognisers, at a payload of a header packet.
pub type_of : Protocol → List ℕ → ℕ → Option ℕ
type_of protocol cp datalen = do
  request ← protocol.is_request cp datalen
  (if request
      then some req
      else (do response ← protocol.is_response cp datalen; some (if response then rsp else 0)))

-- `tcp_dl` is set to what was captured behind the headers.
pub real_length : Packet → ℕ
real_length pkt = (pkt.raw_len + 2 ^ 16 - (pkt.ip_hl + pkt.tcp_hl + ethhdr_size) % 2 ^ 16) % 2 ^ 16

-- The packet with its type and a copy of `dl` bytes of its payload.
abbrev pub with_copy : List ℕ → Packet → (type dl : ℕ) → Option Packet
with_copy cp pkt type dl = do
  bytes ← bytes_at cp 0 dl
  some (record pkt {
    type = type;
    tcp_dl = dl;
    tcp_odata = some (bytes ++ 0 ∷ []);
    tcp_data = some 0;
  })

-- The payload of a packet for a protocol: a header packet gets a copy of it, with a NUL behind.
pub with_payload : Protocol → List ℕ → Packet → Option Packet
unfolding is_header_packet type_of real_length
with_payload protocol cp pkt = do
  header ← is_header_packet protocol cp pkt.tcp_dl
  (if header
      then (do
        type ← type_of protocol cp pkt.tcp_dl
        with_copy cp pkt type (if type == 0 then pkt.tcp_dl else real_length pkt))
      else some (record pkt { tcp_odata = none; tcp_data = none }))

-- The counters after a packet has been typed, ints as their 32 bits.
abbrev pub count_type : Sniffer → ℕ → Sniffer
count_type s type = record s {
  req_n = if type == req then (s.req_n + 1) % 2 ^ 32 else s.req_n;
  rsp_n = if type == rsp then (s.rsp_n + 1) % 2 ^ 32 else s.rsp_n;
}

-- The loop over the protocols, those before the current one already seen. A protocol that the ports
-- belong to ends it; without a payload the packet is kept, and nobody has it.
pub dispatch :
    Sniffer → (seen left : List Protocol) → (cp : List ℕ) → Packet → Option (Sniffer × Fate)
unfolding is_packet_of with_payload
dispatch s seen [] cp pkt = some (s, Fate.freed)
dispatch s seen (protocol ∷ left) cp pkt =
    let next = dispatch s (seen ++ protocol ∷ []) left cp pkt in
    if is_packet_of protocol pkt.sport pkt.dport
    then (if pkt.tcp_dl == 0 then some (s, Fate.leaked) else do
      pkt' ← with_payload protocol (drop pkt.tcp_hl cp) pkt
      some (
        count_type
            (record s {
              protocols = seen ++ (record protocol { pq = protocol.pq ++ pkt' ∷ [] } ∷ left);
            })
            pkt'.type,
        Fate.queued,
      ))
    else next

-- From the TCP header on, at `cp`.
pub preprocess_tcp : Sniffer → (cp : List ℕ) → Packet → Option (Sniffer × Fate)
unfolding with_tcp dispatch
preprocess_tcp s cp pkt = do
  tcp ← packet_parse_tcphdr cp
  dispatch s [] s.protocols cp (with_tcp pkt tcp)

-- From the IP header on, at `cp`.
pub preprocess_ip : Sniffer → (cp : List ℕ) → Packet → Option (Sniffer × Fate)
unfolding with_ip preprocess_tcp
preprocess_ip s cp pkt = do
  ip ← packet_parse_iphdr cp
  (if not (ip.protocol == 0x06)
      then some (s, Fate.freed)
      else preprocess_tcp s (drop (ip.ihl * 4) cp) (with_ip pkt ip))

unfoldable pub packet_preprocess :
    Sniffer → (raw : List ℕ) → (tv_sec tv_usec caplen : ℕ) → Option (Sniffer × Fate)
unfolding preprocess_ip
packet_preprocess s raw tv_sec tv_usec caplen = do
  eth ← packet_parse_ethhdr raw
  (if not (eth.ether_type == 0x0800)
      then some (s, Fate.freed)
      else preprocess_ip s (drop ethhdr_size raw)
          (record packet_new { cap_sec = tv_sec; cap_usec = tv_usec; raw_len = caplen }))
