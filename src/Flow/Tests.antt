-- ===== src/Flow/Tests.antt =====
-- Packets of one flow.
use monitoring_tool.Prelude.{refl, true, arith}
use monitoring_tool.Packet.{Packet, packet_new}
use monitoring_tool.Order.{order_new}
use monitoring_tool.Flow.{Flow, empty_chain, add_packet}
use monitoring_tool.Flow.Owns.{IsFlow, Settled, ending_of}
use monitoring_tool.Flow.Settles.{add_packet-Settled}

abbrev fresh : Flow
fresh = record {
  pkt_src = empty_chain;
  pkt_dst = empty_chain;
  pkts_src = 0;
  pkts_dst = 0;
  order = order_new;
  rtt = 0;
  syn_sec = 0;
  syn_usec = 0;
  ack2_sec = 0;
  ack2_usec = 0;
  fb_sec = 0;
  fb_usec = 0;
  lb_sec = 0;
  lb_usec = 0;
  payload_src = 0;
  payload_dst = 0;
  last_action_sec = 0;
  last_action_usec = 0;
  close = 0;
}

fresh-IsFlow : IsFlow fresh
fresh-IsFlow = record {
  order = record { last_src = tt; last_dst = tt; counted = omega arith };
  src = record { n = refl; end = refl };
  dst = record { n = refl; end = refl };
}

-- A request of 100 bytes.
abbrev request : Packet
request = record packet_new { tcp_seq = 1000; tcp_dl = 100; tcp_flags = 0x18; type = 1 }

add_packet-Settled_example :
    Settled fresh 7 (ending_of fresh request) (add_packet (50, 0) fresh 7 request true)
add_packet-Settled_example =
    add_packet-Settled (50, 0) fresh 7 request fresh-IsFlow (omega arith) (omega arith) true
