-- ===== src/FlowTable/Adds.antt =====
-- `FlowHashTable::add_packet`, src/flowHashTable.cpp.
use monitoring_tool.Prelude.{
  ℕ, ◌+◌, ◌^◌, ◌≤◌, ◌<◌, ◌≡◌, refl, sym, ap, ◌∙◌, Bool, true, false, Option, none, some, List, [],
  ◌∷◌, ◌++◌, arith, ◌==◌, if◌then◌else◌, length, length-append, get_elem?, Bool-cases, Option-cases,
  inl, inr, All, All-append, All-get,
}
use monitoring_tool.Prelude.Partial.{>>=-returns}
use monitoring_tool.Packet.{Packet, req, rsp}
use monitoring_tool.Order.SeqPkt.{has_bit}
use monitoring_tool.Bucket.Shape.{link_shape}
use monitoring_tool.Flow.{Flow, flow_new, add_packet}
use monitoring_tool.Flow.Owns.{IsFlow, is_dropped, ending_of}
use monitoring_tool.Flow.Settles.{add_packet-Settled}
use monitoring_tool.FlowTable.{
  FlowSocket, OpenFlow, FlowTable, hash_flow, same_socket, with_chain, find_open, create_flow,
  settle, deliver_to, open_flow, socket_of, reverse_socket, add_unknown, add_forward, add_backward,
  table_add_packet, Trace,
}
use monitoring_tool.FlowTable.Lookup.{
  same_socket_iff, occurs_in, IsUnique, occurs-append, occurs-find_none, find_flow-some,
  find_open-find_flow,
}
use monitoring_tool.FlowTable.Places.{
  shape-with_chain, flows-with_chain, IsHome, IsTable, settle-IsTable,
}

-- The chains of a flow have room for one more packet.
abbrev pub IsRoomy : Flow → Type 0
IsRoomy f = (f.pkt_src.n + 1 < 2 ^ 32) × (f.pkt_dst.n + 1 < 2 ^ 32)

-- The memory of a new flow has NULL in its four pointers to packets.
abbrev pub IsClear : Flow → Type 0
IsClear memory =
    (memory.pkt_src.first ≡ [])
    × (memory.pkt_src.end ≡ none)
    × (memory.pkt_dst.first ≡ [])
    × (memory.pkt_dst.end ≡ none)

flow_new-IsFlow : (memory : Flow) → IsClear memory → IsFlow (flow_new memory)
flow_new-IsFlow memory h = record {
  order = record { last_src = tt; last_dst = tt; counted = omega arith };
  src = record { n = ground arith; end = ground arith };
  dst = record { n = ground arith; end = ground arith };
}

-- Only an RST makes a flow be deleted.
dropped_by_rst :
    (f : Flow) (p : Packet) → is_dropped (ending_of f p) ≡ true → has_bit 2 p.tcp_flags ≡ true
dropped_by_rst f p h = elim (Bool-cases (has_bit 2 p.tcp_flags)) [
  | inl rst ↦ rst
  | inr no_rst ↦ elim (Bool-cases (has_bit 0 p.tcp_flags)) [
    | inl fin ↦ absurd (ground (arith, no_rst, fin, rw (no_rst, fin) at h))
    | inr no_fin ↦ absurd (ground (arith, no_rst, no_fin, rw (no_rst, no_fin) at h))
  ]
]

-- The table that a call with the packet leaves, if it returns one, and what else it does.
pub record Keeps (p : Packet) (made : Option (FlowTable × Trace)) : Type 0 where
  pub after : FlowTable
  pub trace : Trace
  pub returns : made ≡ some (after, trace)
  pub table : IsTable after
  pub reads : trace.reads_deleted ≡ true → has_bit 2 p.tcp_flags ≡ true

deliver_to-Keeps :
    (now : ℕ × ℕ) (t : FlowTable) (k i ptr : ℕ) (p : Packet) (src : Bool) (e : OpenFlow)
    → IsTable t
    → get_elem? (t.flow_hash_table k).chain i ≡ some e
    → i < length (t.flow_hash_table k).chain
    → IsRoomy e.flow
    → Keeps p (deliver_to now t k i ptr p src)
unfolding deliver_to
deliver_to-Keeps now t k i ptr p src e h got within roomy =
    let home = All-get (IsHome k) (t.flow_hash_table k).chain i e got (h.flows k) in
    let a = add_packet-Settled now e.flow ptr p home.0 roomy.0 roomy.1 src in
    let e' : OpenFlow = record e { flow = a.after.flow } in
    let (t', settled, table) = settle-IsTable t k i e e' a.after.ending h got within refl a.valid in
    record {
      after = t';
      trace = record { freed = a.after.freed; reads_deleted = a.after.reads_deleted };
      returns = >>=-returns (get_elem? (t.flow_hash_table k).chain i) _ got (
          >>=-returns (add_packet now e.flow ptr p src) _ a.returns
            (>>=-returns (settle t k i e' a.after.ending) _ settled refl));
      table = table;
      reads = λ yes. dropped_by_rst e.flow p (sym a.reads ∙ yes);
    }

-- The new flow stands at the end of its chain.
get_elem?-last : {E : Type 0} (es : List E) (e : E) → get_elem? (es ++ e ∷ []) (length es) ≡ some e
get_elem?-last [] e = refl
get_elem?-last (x ∷ es) e = get_elem?-last es e

-- The counts of a socket and of its reverse after one flow more.
counts :
    {a b a' b' : ℕ} (mine back self : Bool)
    → a' ≡ a + (if mine then 1 else 0)
    → b' ≡ b + (if back then 1 else 0)
    → a + (if self then 0 else b) ≤ 1
    → (mine ≡ true → (a ≡ 0) × (b ≡ 0))
    → (back ≡ true → (a ≡ 0) × (b ≡ 0))
    → (mine ≡ true → back ≡ true → self ≡ true)
    → a' + (if self then 0 else b') ≤ 1
counts mine back self e f h m n o = ground (arith, m, n, o)

-- A connection that had no flow has one afterwards.
grown-IsUnique :
    (t t' : FlowTable) (s : FlowSocket)
    → occurs_in t s ≡ 0
    → occurs_in t (reverse_socket s) ≡ 0
    → ((r : FlowSocket) → occurs_in t' r ≡ occurs_in t r + (if same_socket s r then 1 else 0))
    → IsUnique t
    → IsUnique t'
grown-IsUnique t t' s here back grown h r =
    counts (same_socket s r) (same_socket s (reverse_socket r)) (same_socket r (reverse_socket r))
      (grown r) (grown (reverse_socket r)) (h r)
      (λ e.
        let same = (same_socket_iff s r).0 e in
        (
          ap (occurs_in t) (sym same) ∙ here,
          ap (λ (q : FlowSocket). occurs_in t (reverse_socket q)) (sym same) ∙ back,
        ))
      (λ e.
        let same = (same_socket_iff s (reverse_socket r)).0 e in
        (
          ap (λ (q : FlowSocket). occurs_in t (reverse_socket q)) (sym same) ∙ back,
          ap (occurs_in t) (sym same) ∙ here,
        ))
      (λ e f.
        (same_socket_iff r (reverse_socket r)).1
          (sym ((same_socket_iff s r).0 e) ∙ (same_socket_iff s (reverse_socket r)).0 f))

module _ (memory : Flow) (clear : IsClear memory) (t : FlowTable) (s : FlowSocket)
    (h : IsTable t) where
  -- A table in which a new flow stands.
  record Created (t' : FlowTable) : Type 0 where
    chain :
        (t'.flow_hash_table (hash_flow s)).chain
        ≡ (t.flow_hash_table (hash_flow s)).chain
          ++ record { socket = s; flow = flow_new memory } ∷ []
    table : IsTable t'

  create_flow-Created :
      occurs_in t s ≡ 0
      → occurs_in t (reverse_socket s) ≡ 0
      → (t' : FlowTable) × (create_flow memory t s ≡ some t') × Created t'
  unfolding create_flow
  create_flow-Created none_here none_back =
      let k = hash_flow s in
      let hm = t.flow_hash_table k in
      let e : OpenFlow = record { socket = s; flow = flow_new memory } in
      let (b, linked, shape, chain) = link_shape hm.chain hm e refl (h.shape k) in
      let t' : FlowTable = record (with_chain t k b) { flow_cnt = t.flow_cnt + 1 } in
      let grown : (r : FlowSocket)
          → occurs_in t' r ≡ occurs_in t r + (if same_socket s r then 1 else 0) =
        λ r. elim (Bool-cases (hash_flow r == k)) [
          | inl here ↦
              let same : hash_flow r ≡ k = ground arith in
              rw (here, same, chain) (ground (arith, occurs-append r hm.chain (e ∷ [])))
          | inr elsewhere ↦
              rw elsewhere (ground (arith, ap hash_flow {x = s} {y = r}, same_socket_iff s r))
        ] in
      (
        t',
        rw linked,
        record {
          chain = ground (arith, chain);
          table = record {
            shape = shape-with_chain t k b h.shape shape;
            flows = flows-with_chain t k b h.flows (
                rw chain (
                  All-append (IsHome k) hm.chain (e ∷ []) (h.flows k)
                    ((flow_new-IsFlow memory clear, refl), tt)));
            closed = h.closed;
            queue = h.queue;
            unique = grown-IsUnique t t' s none_here none_back grown h.unique;
          };
        },
      )

-- Every flow of the table has room.
abbrev pub HasRoom : FlowTable → Type 0
HasRoom t = (k : ℕ) → All (λ (e : OpenFlow). IsRoomy e.flow) (t.flow_hash_table k).chain

module _ (now : ℕ × ℕ) (memory : Flow) (clear : IsClear memory) (t : FlowTable) (h : IsTable t)
    (room : HasRoom t) (ptr : ℕ) (p : Packet) where
  deliver_found :
      (s : FlowSocket) (i : ℕ) (src : Bool)
      → find_open t s ≡ some i
      → Keeps p (deliver_to now t (hash_flow s) i ptr p src)
  deliver_found s i src found =
      let k = hash_flow s in
      let walked = sym (find_open-find_flow t s (h.shape k)) ∙ found in
      let (e, got, _, within, _) = find_flow-some (t.flow_hash_table k).chain s i walked in
      deliver_to-Keeps now t k i ptr p src e h got within
        (All-get (λ (e : OpenFlow). IsRoomy e.flow) (t.flow_hash_table k).chain i e got (room k))

  absent : (s : FlowSocket) → find_open t s ≡ none → occurs_in t s ≡ 0
  absent s none_found =
      let k = hash_flow s in
      occurs-find_none s (t.flow_hash_table k).chain
        (sym (find_open-find_flow t s (h.shape k)) ∙ none_found)

  open_flow-Keeps :
      (s : FlowSocket) (src : Bool)
      → occurs_in t s ≡ 0
      → occurs_in t (reverse_socket s) ≡ 0
      → Keeps p (open_flow now memory t s ptr p src)
  unfolding open_flow
  open_flow-Keeps s src here back =
      let k = hash_flow s in
      let old = (t.flow_hash_table k).chain in
      let e : OpenFlow = record { socket = s; flow = flow_new memory } in
      let (t', created, c) = create_flow-Created memory clear t s h here back in
      let d =
        deliver_to-Keeps now t' k (length old) ptr p src e c.table
          (rw c.chain (get_elem?-last old e))
          (rw c.chain (omega (arith, length-append old (e ∷ [])))) (omega arith, omega arith) in
      record {
        after = d.after;
        trace = d.trace;
        returns = >>=-returns (create_flow memory t s) _ created d.returns;
        table = d.table;
        reads = d.reads;
      }

  add_unknown-Keeps :
      occurs_in t (socket_of p) ≡ 0
      → occurs_in t (reverse_socket (socket_of p)) ≡ 0
      → Keeps p (add_unknown now memory t ptr p)
  unfolding add_unknown
  add_unknown-Keeps here back = elim (Bool-cases (p.type == req)) [
    | inl request ↦ rw request (open_flow-Keeps (socket_of p) true here back)
    | inr other ↦ elim (Bool-cases (p.type == rsp)) [
      | inl response ↦
          rw (other, response) (open_flow-Keeps (reverse_socket (socket_of p)) false back here)
      | inr neither ↦
          rw (other, neither)
            (record {
              after = t;
              trace = record { freed = ptr ∷ []; reads_deleted = false };
              returns = refl;
              table = h;
              reads = λ e. absurd (ground (arith, e));
            })
    ]
  ]

  -- A packet that is added to a table in order, each flow of which has room for it, and where the
  -- memory of a new flow has NULL in its pointers to packets, which the constructor leaves as they are,
  -- never makes `add_packet` follow a bad pointer, except that with an RST it may read the flow that it
  -- has just deleted. The table is in order again: the buckets are well-formed, every flow is well-formed and stands in the bucket of its
  -- socket, the flow queue is well-formed, and no connection has two flows, neither under its socket nor
  -- under the reverse.
  pub table_add_packet-Keeps : Keeps p (table_add_packet now memory t ptr p)
  unfolding table_add_packet add_backward add_forward
  table_add_packet-Keeps = elim (Option-cases (find_open t (reverse_socket (socket_of p)))) [
    | inr (i, found) ↦ rw found (deliver_found (reverse_socket (socket_of p)) i false found)
    | inl no_answer ↦ elim (Option-cases (find_open t (socket_of p))) [
      | inr (i, found) ↦ rw (no_answer, found) (deliver_found (socket_of p) i true found)
      | inl no_flow ↦
          rw (no_answer, no_flow)
            (add_unknown-Keeps (absent (socket_of p) no_flow)
              (absent (reverse_socket (socket_of p)) no_answer))
    ]
  ]
