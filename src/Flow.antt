-- ===== src/Flow.antt =====
-- A flow, c-http-sniffer/include/flow.hpp and src/flow.cpp: the state that a packet of one TCP
-- connection changes, with the calls of order.c and tcp.c. A packet is its address, by which the chains
-- of the flow hold it and by which it is freed, and the record at that address. The flow's place in
-- the hash table, its socket and its chain of pairs are not touched here and left out. `now` is what
-- `gettimeofday` answers.
pub mod Owns
pub mod Settles
pub mod Tests
use Prim.Native.Nat.{bit_and}
use monitoring_tool.Prelude.{
  ℕ, zero, suc, ◌+◌, ◌%◌, ◌^◌, Bool, true, false, ◌&&◌, Option, none, some, List, [], ◌∷◌, ◌++◌,
  ltb, ◌==◌, if◌then◌else◌, take,
}
use monitoring_tool.Prelude.Partial.{◌>>=◌}
use monitoring_tool.Packet.{Packet, th_fin, th_syn, th_rst}
use monitoring_tool.Order.{Seq, Order, order_new, seq_pkt}
use monitoring_tool.Tcp.{tcp_order}

-- A chain of packets: `pkt_src_f`, `pkt_src_e` and `pkt_src_n`, or those of the other direction. The
-- end is a position, `none` is NULL.
pub record Chain : Type 0 where
  pub first : List ℕ
  pub end : Option ℕ
  pub n : ℕ

pub record Flow : Type 0 where
  pub pkt_src : Chain
  pub pkt_dst : Chain
  pub pkts_src : ℕ
  pub pkts_dst : ℕ
  pub order : Order
  pub rtt : ℕ
  pub syn_sec : ℕ
  pub syn_usec : ℕ
  pub ack2_sec : ℕ
  pub ack2_usec : ℕ
  pub fb_sec : ℕ
  pub fb_usec : ℕ
  pub lb_sec : ℕ
  pub lb_usec : ℕ
  pub payload_src : ℕ
  pub payload_dst : ℕ
  pub last_action_sec : ℕ
  pub last_action_usec : ℕ
  pub close : ℕ

-- The constructor leaves what it does not name as the memory was.
abbrev pub flow_new : Flow → Flow
flow_new memory = record memory {
  order = order_new;
  pkt_src = record memory.pkt_src { n = 0 };
  pkt_dst = record memory.pkt_dst { n = 0 };
  pkts_src = 0;
  pkts_dst = 0;
  lb_sec = 0;
  lb_usec = 0;
}

-- The walk that frees a chain leaves it empty.
abbrev pub empty_chain : Chain
empty_chain = record { first = []; end = none; n = 0 }

-- The flow afterwards and the packets freed.
unfoldable pub reset : Flow → Flow × List ℕ
reset f = (
  record {
    pkt_src = empty_chain;
    pkt_dst = empty_chain;
    pkts_src = 0;
    pkts_dst = 0;
    order = order_new;
    rtt = 0;
    syn_sec = 0;
    syn_usec = 0;
    ack2_sec = 0;
    ack2_usec = 0;
    fb_sec = 0;
    fb_usec = 0;
    lb_sec = 0;
    lb_usec = 0;
    payload_src = 0;
    payload_dst = 0;
    last_action_sec = 0;
    last_action_usec = 0;
    close = 0;
  },
  f.pkt_dst.first ++ f.pkt_src.first,
)

-- `none` is an access through NULL.
unfoldable pub hook : Chain → ℕ → Option Chain
hook c packet =
    let n = (c.n + 1) % 2 ^ 32 in
    if c.n == 0 then some (record { first = packet ∷ []; end = some 0; n = n }) else do
      e ← c.end
      some (record { first = take (e + 1) c.first ++ packet ∷ []; end = some (e + 1); n = n })

unfoldable pub hook_packet : Flow → ℕ → (src : Bool) → Option Flow
unfolding hook
hook_packet f packet true = do c ← hook f.pkt_src packet; some (record f { pkt_src = c })
hook_packet f packet false = do c ← hook f.pkt_dst packet; some (record f { pkt_dst = c })

-- The counters and the time of the last action.
pub count_packet : (now : ℕ × ℕ) → Flow → Packet → (src : Bool) → Flow
count_packet now f packet true = record f {
  pkts_src = (f.pkts_src + 1) % 2 ^ 32;
  payload_src = (f.payload_src + packet.tcp_dl) % 2 ^ 32;
  last_action_sec = now.0;
  last_action_usec = now.1;
}
count_packet now f packet false = record f {
  pkts_dst = (f.pkts_dst + 1) % 2 ^ 32;
  payload_dst = (f.payload_dst + packet.tcp_dl) % 2 ^ 32;
  last_action_sec = now.0;
  last_action_usec = now.1;
}

-- The record of a packet for the order: one of type 0 is not stored.
pub seq_of : Packet → Seq
unfolding seq_pkt
seq_of packet = let s = seq_pkt packet in if packet.type == 0 then (record s { pkt = none }) else s

unfoldable pub cal_packet : (now : ℕ × ℕ) → Flow → Packet → (src : Bool) → Option Flow
unfolding count_packet seq_of tcp_order
cal_packet now f packet src = do
  ordered ← tcp_order f.order (seq_of packet) src
  some (record (count_packet now f packet src) { order = ordered.0 })

-- Where the flow is afterwards: in the table, taken from it and deleted, or taken from it and put into
-- the flow queue.
pub data Ending : Type 0 where
  stays dropped finished : Ending

-- The flow, the packets freed, the ending and the value returned, and whether the code goes on to unlock the
-- mutex of the bucket through the flow that it has just deleted.
pub record Added : Type 0 where
  pub flow : Flow
  pub freed : List ℕ
  pub ending : Ending
  pub code : ℕ
  pub reads_deleted : Bool

-- `packet->type = 0; cal_packet(...); packet_free(packet);`
pub cal_and_free :
    (now : ℕ × ℕ) → Flow → List ℕ → (ptr : ℕ) → Packet → (src : Bool) → Ending → Option Added
unfolding cal_packet
cal_and_free now f freed ptr packet src ending = do
  f' ← cal_packet now f (record packet { type = 0 }) src
  some (record {
    flow = f';
    freed = freed ++ ptr ∷ [];
    ending = ending;
    code = 0;
    reads_deleted = false;
  })

-- "flow finished": `close` is true afterwards.
abbrev pub closed : Added → Added
closed r = record r { flow = record r.flow { close = 1 } }

-- A packet with a payload is hooked, another one freed.
pub add_data : (now : ℕ × ℕ) → Flow → (ptr : ℕ) → Packet → (src : Bool) → Option Added
unfolding hook_packet cal_packet cal_and_free
add_data now f ptr packet src =
    if packet.type == 0 then cal_and_free now f [] ptr packet src Ending.stays else do
      hooked ← hook_packet f ptr src
      f' ← cal_packet now hooked packet src
      some
          (record { flow = f'; freed = []; ending = Ending.stays; code = 0; reads_deleted = false })

-- "syn", and "syn repeatly".
abbrev pub synchronised : Flow → Packet → Flow
synchronised f packet = record f { syn_sec = packet.cap_sec; syn_usec = packet.cap_usec }

pub add_syn : (now : ℕ × ℕ) → Flow → (ptr : ℕ) → Packet → Option Added
unfolding reset cal_and_free
add_syn now f ptr packet =
    if f.pkts_src == 0
    then cal_and_free now (synchronised f packet) [] ptr packet true Ending.stays
    else cal_and_free now (synchronised (reset f).0 packet) (reset f).1 ptr packet true Ending.stays

-- Neither RST nor FIN is set.
pub add_other : (now : ℕ × ℕ) → Flow → (ptr : ℕ) → Packet → (src : Bool) → Option Added
unfolding add_data add_syn
add_other now f ptr packet true =
    if packet.tcp_flags == th_syn then add_syn now f ptr packet else add_data now f ptr packet true
add_other now f ptr packet false = add_data now f ptr packet false

-- RST: a flow of fewer than four packets is deleted with all that it holds, and then read.
pub add_rst : (now : ℕ × ℕ) → Flow → (ptr : ℕ) → Packet → (src : Bool) → Option Added
unfolding cal_and_free
add_rst now f ptr packet src =
    if ltb f.pkts_src 4
    then some (record {
      flow = f;
      freed = ptr ∷ (f.pkt_dst.first ++ f.pkt_src.first);
      ending = Ending.dropped;
      code = 1;
      reads_deleted = true;
    })
    else do r ← cal_and_free now f [] ptr packet src Ending.finished; some (closed r)

-- FIN: `close` is CLIENT_CLOSE or SERVER_CLOSE, so the test behind it holds.
pub add_fin : (now : ℕ × ℕ) → Flow → (ptr : ℕ) → Packet → (src : Bool) → Option Added
unfolding cal_and_free
add_fin now f ptr packet src = do
  r ← cal_and_free now (record f { close = if src then 1 else 2 }) [] ptr packet src Ending.finished
  some (closed r)

unfoldable pub add_packet : (now : ℕ × ℕ) → Flow → (ptr : ℕ) → Packet → (src : Bool) → Option Added
unfolding add_rst add_fin add_other
add_packet now f ptr packet src =
    if bit_and packet.tcp_flags th_rst == th_rst
    then add_rst now f ptr packet src
    else if bit_and packet.tcp_flags th_fin == th_fin
    then add_fin now f ptr packet src
    else add_other now f ptr packet src
