-- ===== src/Capture/Safety.antt =====
-- When `packet_preprocess` stays inside the frame that was captured.
use monitoring_tool.Prelude.{
  ℕ, ◌+◌, ◌*◌, ◌^◌, ◌≤◌, ◌<◌, ◌≡◌, ◌≢◌, refl, Bool, true, false, ◌||◌, ◌==◌, if◌then◌else◌, All,
  none, some, List, [], ◌∷◌, ◌++◌, arith, length, drop, length-drop, dec_lt,
}
use monitoring_tool.Prelude.Partial.{◌>>=◌}
use monitoring_tool.Packet.{Packet, packet_new, req, rsp}
use monitoring_tool.Packet.Headers.{
  EthHdr, IpHdr, TcpHdr, packet_parse_ethhdr, packet_parse_iphdr, packet_parse_tcphdr,
}
use monitoring_tool.Packet.Bounds.{
  bytes_at-some, parse_ethhdr-ne-none, parse_iphdr-short, parse_tcphdr-short,
}
use monitoring_tool.Capture.{
  Protocol, Sniffer, real_length, is_header_packet, type_of, with_copy, with_payload, with_ip,
  with_tcp, dispatch, preprocess_tcp, preprocess_ip, packet_preprocess,
}

-- The recognisers of a protocol stay inside a payload that is as long as they are told.
pub record StaysInside (protocol : Protocol) : Type 0 where
  pub request :
      (cp : List ℕ) (datalen : ℕ)
      → datalen ≤ length cp
      → (b : Bool) × (protocol.is_request cp datalen ≡ some b)
  pub response :
      (cp : List ℕ) (datalen : ℕ)
      → datalen ≤ length cp
      → (b : Bool) × (protocol.is_response cp datalen ≡ some b)

with_copy-ne-none :
    (cp : List ℕ) (pkt : Packet) (type dl : ℕ) → dl ≤ length cp → with_copy cp pkt type dl ≢ none
with_copy-ne-none cp pkt type dl h =
    let (bs, e) = bytes_at-some cp 0 dl (omega (arith, h)) in λ q. ground (arith, e, q)

with_payload-ne-none :
    (protocol : Protocol) (cp : List ℕ) (pkt : Packet)
    → StaysInside protocol
    → pkt.tcp_dl ≤ length cp
    → real_length pkt ≤ length cp
    → with_payload protocol cp pkt ≢ none
unfolding with_payload is_header_packet type_of
with_payload-ne-none protocol cp pkt inside whole h =
    let (request, q) = inside.request cp pkt.tcp_dl whole in
    let (response, r) = inside.response cp pkt.tcp_dl whole in
    λ e. typed request response (rw (q, r) at e)
  where
    typed :
        (request response : Bool)
        → (if request || response
            then ((if request then some req else some (if response then rsp else 0)) >>= λ type.
                with_copy cp pkt type (if type == 0 then pkt.tcp_dl else real_length pkt))
            else some (record pkt { tcp_odata = none; tcp_data = none }))
          ≡ none
        → ⊥
    typed true true e = with_copy-ne-none cp pkt req (real_length pkt) h e
    typed true false e = with_copy-ne-none cp pkt req (real_length pkt) h e
    typed false true e = with_copy-ne-none cp pkt rsp (real_length pkt) h e
    typed false false e = ground (arith, e)

dispatch-ne-none :
    (s : Sniffer) (seen left : List Protocol) (cp : List ℕ) (pkt : Packet)
    → All StaysInside left
    → pkt.tcp_dl ≤ length (drop pkt.tcp_hl cp)
    → real_length pkt ≤ length (drop pkt.tcp_hl cp)
    → dispatch s seen left cp pkt ≢ none
unfolding dispatch
dispatch-ne-none s seen [] cp pkt inside whole h = λ q. cc
dispatch-ne-none s seen (protocol ∷ left) cp pkt (inside, insides) whole h = λ q. ground (
  arith,
  with_payload-ne-none protocol (drop pkt.tcp_hl cp) pkt inside whole h,
  dispatch-ne-none s (seen ++ protocol ∷ []) left cp pkt insides whole h,
)

-- The headers of a frame, as its parsers read them.
module _ (raw : List ℕ) (ip : IpHdr) (e : packet_parse_iphdr (drop 14 raw) ≡ some ip) where
  frame_length : 34 ≤ length raw
  frame_length = elim (dec_lt (length (drop 14 raw)) 20) [
    | yes h ↦ absurd {A = 34 ≤ length raw} (cc (e, parse_iphdr-short (drop 14 raw) h))
    | no h ↦ omega (arith, length-drop 14 raw)
  ]

  -- The copy of the payload stays inside the frame.
  module _ (tcp : TcpHdr) (pkt : Packet) (same : pkt.ip_hl ≡ ip.ihl * 4)
      (ends : 14 + ip.ihl * 4 + tcp.th_off * 4 ≤ pkt.raw_len)
      (captured : pkt.raw_len ≤ length raw) where
    payload_fits :
        real_length (with_tcp pkt tcp)
        ≤ length (drop (tcp.th_off * 4) (drop (ip.ihl * 4) (drop 14 raw)))
    unfolding real_length with_tcp
    payload_fits = omega (
      arith,
      length-drop (tcp.th_off * 4) (drop (ip.ihl * 4) (drop 14 raw)),
      length-drop (ip.ihl * 4) (drop 14 raw),
      length-drop 14 raw,
    )

    -- The length of the payload that the IP header states is inside, too.
    module _ (tol : pkt.ip_tol ≡ ip.tot_len) (word : ip.tot_len < 2 ^ 16)
        (behind : ip.ihl * 4 + tcp.th_off * 4 ≤ ip.tot_len)
        (whole : 14 + ip.tot_len ≤ length raw) where
      stated_fits :
          (with_tcp pkt tcp).tcp_dl
          ≤ length (drop (tcp.th_off * 4) (drop (ip.ihl * 4) (drop 14 raw)))
      unfolding with_tcp
      stated_fits = omega (
        arith,
        length-drop (tcp.th_off * 4) (drop (ip.ihl * 4) (drop 14 raw)),
        length-drop (ip.ihl * 4) (drop 14 raw),
        length-drop 14 raw,
      )

-- If the IP and the TCP header of a frame can be read, the captured part of the frame holds both headers at
-- the lengths that they state, no more is said to be captured than the buffer holds, the datagram whose
-- length the IP header states is captured whole and holds both headers, and the recognisers of the
-- protocols stay inside the length that they are given, then `packet_preprocess` accesses no byte outside
-- of the buffer.
pub packet_preprocess_safe :
    (s : Sniffer) (raw : List ℕ) (tv_sec tv_usec caplen : ℕ) (ip : IpHdr) (tcp : TcpHdr)
    → packet_parse_iphdr (drop 14 raw) ≡ some ip
    → packet_parse_tcphdr (drop (ip.ihl * 4) (drop 14 raw)) ≡ some tcp
    → 14 + ip.ihl * 4 + tcp.th_off * 4 ≤ caplen
    → caplen ≤ length raw
    → ip.tot_len < 2 ^ 16
    → ip.ihl * 4 + tcp.th_off * 4 ≤ ip.tot_len
    → 14 + ip.tot_len ≤ length raw
    → All StaysInside s.protocols
    → packet_preprocess s raw tv_sec tv_usec caplen ≢ none
unfolding packet_preprocess with_tcp
packet_preprocess_safe s raw tv_sec tv_usec caplen ip tcp e f ends captured word behind whole
      inside =
    let frame : Packet = record packet_new {
      cap_sec = tv_sec;
      cap_usec = tv_usec;
      raw_len = caplen;
    } in
    let pkt : Packet = with_tcp (with_ip frame ip) tcp in
    let cp = drop (ip.ihl * 4) (drop 14 raw) in
    let fits = payload_fits raw ip e tcp (with_ip frame ip) refl ends captured in
    let stated =
      stated_fits raw ip e tcp (with_ip frame ip) refl ends captured refl word behind whole in
    λ q. ground (
      arith,
      parse_ethhdr-ne-none raw (omega (arith, frame_length raw ip e)),
      dispatch-ne-none s [] s.protocols cp pkt inside stated fits,
    )

-- A TCP datagram in an IPv4 frame that is too short for a TCP header behind its IP header makes
-- `packet_preprocess` read behind the frame; the length that `capture_main` asks for, 54 bytes, rules
-- that out only where the IP header has no options.
pub packet_preprocess_overrun :
    (s : Sniffer) (raw : List ℕ) (tv_sec tv_usec caplen : ℕ) (eth : EthHdr) (ip : IpHdr)
    → packet_parse_ethhdr raw ≡ some eth
    → eth.ether_type ≡ 0x0800
    → packet_parse_iphdr (drop 14 raw) ≡ some ip
    → ip.protocol ≡ 0x06
    → length raw < 14 + ip.ihl * 4 + 20
    → packet_preprocess s raw tv_sec tv_usec caplen ≡ none
unfolding packet_preprocess preprocess_ip preprocess_tcp
packet_preprocess_overrun s raw tv_sec tv_usec caplen eth ip e ipv4 f tcp short = ground (
  arith,
  parse_tcphdr-short (drop (ip.ihl * 4) (drop 14 raw))
      (omega (arith, length-drop (ip.ihl * 4) (drop 14 raw), length-drop 14 raw)),
)
