-- ===== src/FlowTable.antt =====
-- The table of the flows that are open, c-http-sniffer/include/flowHashTable.hpp and
-- src/flowHashTable.cpp, with the flow queue that closed flows are put into. A flow stands in the chain
-- of its bucket with its socket; a pointer to it is the bucket's index and the position in the chain.
-- What `Flow::add_packet` does to the table is done here by the ending that it answers. `memory` is what
-- `new` finds in the memory of a flow. `none` is an access through NULL.
pub mod Lookup
pub mod Places
pub mod Adds
pub mod Routes
pub mod Scrubber
pub mod Closes
pub mod Scrubs
pub mod Clears
pub mod Tests
use Prim.Native.Nat.{bit_and, bit_or}
use mathlib.Core.Option
use monitoring_tool.Prelude.{
  ℕ, zero, suc, ◌+◌, ◌-◌, ◌*◌, ◌%◌, ◌^◌, Bool, true, false, ◌&&◌, Option, none, some, List, [], ◌∷◌,
  ◌++◌, ltb, ◌==◌, if◌then◌else◌, length, get_elem?, set,
}
use monitoring_tool.Prelude.Partial.{◌>>=◌}
use monitoring_tool.Packet.{Packet, req, rsp}
use monitoring_tool.Queue.{Queue, enq}
use monitoring_tool.Bucket.{clear_buckets, slots_consumed, Bucket, link_node, unlink}
use monitoring_tool.Flow.{Flow, flow_new, Added, Ending, stays, dropped, finished, add_packet}

pub record FlowSocket : Type 0 where
  pub saddr : ℕ
  pub daddr : ℕ
  pub sport : ℕ
  pub dport : ℕ

pub record OpenFlow : Type 0 where
  pub socket : FlowSocket
  pub flow : Flow

pub record FlowTable : Type 0 where
  pub flow_hash_table : ℕ → Bucket OpenFlow
  pub flow_cnt : ℕ
  pub fq : Queue OpenFlow

-- HASH_FLOW.
unfoldable pub hash_flow : FlowSocket → ℕ
hash_flow s =
    bit_or
      (bit_or (bit_or (bit_and s.sport 0xff) (bit_and s.dport 0xff * 2 ^ 8))
        (bit_and s.saddr 0xff * 2 ^ 16))
      (bit_and s.daddr 0xff * 2 ^ 24)
    % 13200

-- `flow_socket_cmp` answers 0.
abbrev pub same_socket : FlowSocket → FlowSocket → Bool
same_socket s r =
    s.saddr == r.saddr && s.daddr == r.daddr && s.sport == r.sport && s.dport == r.dport

abbrev pub with_chain : FlowTable → ℕ → Bucket OpenFlow → FlowTable
with_chain t k b = record t {
  flow_hash_table = λ (i : ℕ). if i == k then b else t.flow_hash_table i;
}

-- The walk along a chain.
unfoldable pub find_flow : List OpenFlow → FlowSocket → Option ℕ
find_flow [] s = none
find_flow (e ∷ es) s =
    let rest = find_flow es s in if same_socket e.socket s then some 0 else Option.map suc rest

-- The position in the bucket of the socket's hash.
unfoldable pub find_open : FlowTable → FlowSocket → Option ℕ
unfolding find_flow
find_open t s =
    let hm = t.flow_hash_table (hash_flow s) in
    if ltb 0 hm.elm_cnt then find_flow hm.chain s else none

unfoldable pub create_flow : (memory : Flow) → FlowTable → FlowSocket → Option FlowTable
unfolding link_node
create_flow memory t s = do
  hm ← link_node (t.flow_hash_table (hash_flow s)) (record { socket = s; flow = flow_new memory })
  some (record (with_chain t (hash_flow s) hm) { flow_cnt = t.flow_cnt + 1 })

unfoldable pub remove_flow : FlowTable → (k i : ℕ) → Option FlowTable
unfolding unlink
remove_flow t k i = do
  hm ← unlink (t.flow_hash_table k) i
  some (record (with_chain t k hm) { flow_cnt = t.flow_cnt - 1 })

-- The flow at a position after a packet: it stays, is removed and deleted, or is removed and put into
-- the flow queue.
pub settle : FlowTable → (k i : ℕ) → OpenFlow → Ending → Option FlowTable
unfolding remove_flow
settle t k i e stays =
    let hm = t.flow_hash_table k in some (with_chain t k (record hm { chain = set hm.chain i e }))
settle t k i e dropped = remove_flow t k i
settle t k i e finished = do t' ← remove_flow t k i; q ← enq t'.fq e; some (record t' { fq = q })

-- The packets that a call frees, and whether it reads a flow that it has deleted.
pub record Trace : Type 0 where
  pub freed : List ℕ
  pub reads_deleted : Bool

-- `f->add_packet(packet, src)` for the flow at a position.
unfoldable pub deliver_to :
    (now : ℕ × ℕ) → FlowTable → (k i ptr : ℕ) → Packet → (src : Bool) → Option (FlowTable × Trace)
unfolding settle add_packet
deliver_to now t k i ptr packet src = do
  e ← get_elem? (t.flow_hash_table k).chain i
  a ← add_packet now e.flow ptr packet src
  t' ← settle t k i (record e { flow = a.flow }) a.ending
  some (t', record { freed = a.freed; reads_deleted = a.reads_deleted })

-- A new flow stands last in its chain.
pub open_flow :
    (now : ℕ × ℕ) (memory : Flow)
    → FlowTable
    → FlowSocket
    → (ptr : ℕ) → Packet
    → (src : Bool) → Option (FlowTable × Trace)
unfolding create_flow deliver_to
open_flow now memory t s ptr packet src = do
  t' ← create_flow memory t s
  deliver_to now t' (hash_flow s) (length (t.flow_hash_table (hash_flow s)).chain) ptr packet src

-- The socket of a packet as it was sent, and with its two ends exchanged.
abbrev pub socket_of : Packet → FlowSocket
socket_of p = record { saddr = p.saddr; daddr = p.daddr; sport = p.sport; dport = p.dport }

abbrev pub reverse_socket : FlowSocket → FlowSocket
reverse_socket s = record { saddr = s.daddr; daddr = s.saddr; sport = s.dport; dport = s.sport }

-- Neither direction has a flow: only the first packet of a request or of a response opens one.
pub add_unknown :
    (now : ℕ × ℕ) (memory : Flow) → FlowTable → (ptr : ℕ) → Packet → Option (FlowTable × Trace)
unfolding open_flow
add_unknown now memory t ptr packet =
    if packet.type == req
    then open_flow now memory t (socket_of packet) ptr packet true
    else if packet.type == rsp
    then open_flow now memory t (reverse_socket (socket_of packet)) ptr packet false
    else some (t, record { freed = ptr ∷ []; reads_deleted = false })

-- `f` from the second search, for the socket as the packet has it.
pub add_forward :
    (now : ℕ × ℕ) (memory : Flow)
    → FlowTable
    → (ptr : ℕ) → Packet
    → Option ℕ
    → Option (FlowTable × Trace)
unfolding deliver_to add_unknown
add_forward now memory t ptr packet none = add_unknown now memory t ptr packet
add_forward now memory t ptr packet (some i) =
    deliver_to now t (hash_flow (socket_of packet)) i ptr packet true

-- `f` from the first search, for the socket with its ends exchanged.
pub add_backward :
    (now : ℕ × ℕ) (memory : Flow)
    → FlowTable
    → (ptr : ℕ) → Packet
    → Option ℕ
    → Option (FlowTable × Trace)
unfolding deliver_to add_forward find_open
add_backward now memory t ptr packet none =
    add_forward now memory t ptr packet (find_open t (socket_of packet))
add_backward now memory t ptr packet (some i) =
    deliver_to now t (hash_flow (reverse_socket (socket_of packet))) i ptr packet false

unfoldable pub table_add_packet :
    (now : ℕ × ℕ) (memory : Flow) → FlowTable → (ptr : ℕ) → Packet → Option (FlowTable × Trace)
unfolding find_open add_backward
table_add_packet now memory t ptr packet =
    add_backward now memory t ptr packet (find_open t (reverse_socket (socket_of packet)))

-- `clear`, with the flows that it deletes, in order.
unfoldable pub clear : FlowTable → FlowTable × List OpenFlow
unfolding clear_buckets
clear t =
    let cleared = clear_buckets 0 13200 t.flow_hash_table in
    (record t { flow_hash_table = cleared.0; flow_cnt = 0 }, cleared.1)

-- `scnt`.
unfoldable pub scnt : FlowTable → ℕ
unfolding slots_consumed
scnt t = slots_consumed 0 13200 t.flow_hash_table
