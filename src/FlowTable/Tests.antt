-- ===== src/FlowTable/Tests.antt =====
-- A table with one flow.
use monitoring_tool.Prelude.{
  none, ℕ, refl, true, false, [], ◌∷◌, some, Bool-cases, arith, ◌==◌, if◌then◌else◌, ◌≡◌, inl, inr,
  ltb, leb, ◌&&◌, ◌≤◌, ap, sym, ◌∙◌,
}
use monitoring_tool.Packet.{Packet, packet_new}
use monitoring_tool.Order.{order_new}
use monitoring_tool.Bucket.{empty_bucket}
use monitoring_tool.Queue.{new_queue}
use monitoring_tool.Flow.{Flow, empty_chain, flow_new}
use monitoring_tool.FlowTable.{
  FlowSocket, FlowTable, hash_flow, same_socket, with_chain, find_open, reverse_socket, clear, scnt,
  deliver_to, table_add_packet,
}
use monitoring_tool.Bucket.Clears.{nodes_from}
use monitoring_tool.FlowTable.Clears.{clear-empties}
use monitoring_tool.FlowTable.Lookup.{occurs_in}
use monitoring_tool.Flow.Owns.{IsFlow}
use monitoring_tool.FlowTable.Places.{IsTable}
use monitoring_tool.FlowTable.Adds.{Keeps, table_add_packet-Keeps}
use monitoring_tool.FlowTable.Routes.{table_add_packet_routes}
use monitoring_tool.FlowTable.Scrubber.{flow_scrubber, alive, forced_from}
use monitoring_tool.FlowTable.Scrubs.{Scrubbed, flow_scrubber-Scrubbed}

abbrev fresh : Flow
fresh = record {
  pkt_src = empty_chain;
  pkt_dst = empty_chain;
  pkts_src = 0;
  pkts_dst = 0;
  order = order_new;
  rtt = 0;
  syn_sec = 0;
  syn_usec = 0;
  ack2_sec = 0;
  ack2_usec = 0;
  fb_sec = 0;
  fb_usec = 0;
  lb_sec = 0;
  lb_usec = 0;
  payload_src = 0;
  payload_dst = 0;
  last_action_sec = 0;
  last_action_usec = 0;
  close = 0;
}

-- A client at port 4000 and a server at port 80.
abbrev socket : FlowSocket
socket = record { saddr = 10; daddr = 20; sport = 4000; dport = 80 }

abbrev request : Packet
request = record packet_new {
  saddr = 10;
  daddr = 20;
  sport = 4000;
  dport = 80;
  tcp_seq = 1000;
  tcp_dl = 100;
  tcp_flags = 0x18;
  type = 1;
}

abbrev answer : Packet
answer = record packet_new {
  saddr = 20;
  daddr = 10;
  sport = 80;
  dport = 4000;
  tcp_seq = 5000;
  tcp_dl = 100;
  tcp_flags = 0x18;
  type = 2;
}

fresh-IsFlow : IsFlow (flow_new fresh)
fresh-IsFlow = record {
  order = record { last_src = tt; last_dst = tt; counted = omega arith };
  src = record { n = refl; end = refl };
  dst = record { n = refl; end = refl };
}

abbrev no_flows : FlowTable
no_flows = record { flow_hash_table = λ (k : ℕ). empty_bucket; flow_cnt = 0; fq = new_queue }

abbrev one_flow : FlowTable
one_flow =
    record (with_chain no_flows (hash_flow socket) (record {
      chain = record { socket = socket; flow = flow_new fresh } ∷ [];
      last = some 0;
      elm_cnt = 1;
    })) { flow_cnt = 1 }

no_flows-IsTable : IsTable no_flows
no_flows-IsTable = record {
  shape = λ k. record { elm_cnt = refl; last = refl };
  flows = λ k. tt;
  closed = [];
  queue = record { chain = refl; last = refl; qlen = refl };
  unique = λ s. ground arith;
}

-- The request opens the flow.
table_add_packet-Keeps_example : Keeps request (table_add_packet (50, 0) fresh no_flows 7 request)
table_add_packet-Keeps_example =
    table_add_packet-Keeps (50, 0) fresh (refl, refl, refl, refl) no_flows no_flows-IsTable
      (λ k. tt) 7 request

only_here :
    (s : FlowSocket) → same_socket socket s ≡ true → same_socket socket (reverse_socket s) ≡ false
only_here s h = ground arith

occurs-bound : (s : FlowSocket) → occurs_in one_flow s ≤ (if same_socket socket s then 1 else 0)
occurs-bound s = elim (Bool-cases (hash_flow s == hash_flow socket)) [
  | inl here ↦ rw here (ground arith)
  | inr other ↦ rw other (ground arith)
]

one_flow-IsTable : IsTable one_flow
one_flow-IsTable = record {
  shape = λ k. elim (Bool-cases (k == hash_flow socket)) [
    | inl here ↦ rw here (record { elm_cnt = refl; last = refl })
    | inr other ↦ rw other (record { elm_cnt = refl; last = refl })
  ];
  flows = λ k. elim (Bool-cases (k == hash_flow socket)) [
    | inl here ↦ rw here ((fresh-IsFlow, ap hash_flow refl ∙ sym (ground arith)), tt)
    | inr other ↦ rw other tt
  ];
  closed = [];
  queue = record { chain = refl; last = refl; qlen = refl };
  unique = λ s. ground (arith, occurs-bound s, occurs-bound (reverse_socket s), only_here s);
}

table_add_packet_routes_example :
    (table_add_packet (50, 0) fresh one_flow 7 request
      ≡ deliver_to (50, 0) one_flow (hash_flow socket) 0 7 request true)
    × (table_add_packet (50, 0) fresh one_flow 7 answer
        ≡ deliver_to (50, 0) one_flow (hash_flow socket) 0 7 answer false)
unfolding find_open hash_flow
table_add_packet_routes_example =
    table_add_packet_routes (50, 0) fresh one_flow socket 0 7 request answer one_flow-IsTable refl
      refl refl refl

flow_scrubber-Scrubbed_example :
    Scrubbed one_flow (flow_scrubber 700 600 one_flow) (forced_from 700 600 0 13200 one_flow) (λ j.
      if leb 0 j && ltb j 13200
      then alive 700 600 (one_flow.flow_hash_table j).chain
      else (one_flow.flow_hash_table j).chain)
flow_scrubber-Scrubbed_example = flow_scrubber-Scrubbed 700 600 one_flow one_flow-IsTable

clear-empties_example :
    IsTable (clear one_flow).0
    × ((clear one_flow).1 ≡ nodes_from 0 13200 one_flow.flow_hash_table)
    × ((s : FlowSocket) → find_open (clear one_flow).0 s ≡ none)
    × (scnt (clear one_flow).0 ≡ 0)
    × ((clear one_flow).0.fq ≡ one_flow.fq)
clear-empties_example = clear-empties one_flow one_flow-IsTable
