-- ===== src/FlowTable/Routes.antt =====
-- Where `FlowHashTable::add_packet`, src/flowHashTable.cpp, takes a packet of a known connection.
use monitoring_tool.Prelude.{
  ℕ, ◌≡◌, sym, ap, ◌∙◌, true, false, none, some, arith, Option-cases, inl, inr,
}
use monitoring_tool.Packet.{Packet}
use monitoring_tool.Flow.{Flow}
use monitoring_tool.FlowTable.{
  FlowSocket, FlowTable, hash_flow, same_socket, find_open, deliver_to, socket_of, reverse_socket,
  add_forward, add_backward, table_add_packet,
}
use monitoring_tool.FlowTable.Lookup.{occurs_in, find_flow-some, find_open-find_flow}
use monitoring_tool.FlowTable.Places.{IsTable}

find_open-absent :
    (t : FlowTable) → IsTable t → (s : FlowSocket) → occurs_in t s ≡ 0 → find_open t s ≡ none
find_open-absent t h s none_there = elim (Option-cases (find_open t s)) [
  | inl absent ↦ absent
  | inr (i, found) ↦
      let k = hash_flow s in
      let walked = sym (find_open-find_flow t s (h.shape k)) ∙ found in
      absurd (omega (arith, (find_flow-some (t.flow_hash_table k).chain s i walked).4))
]

-- Both directions of a connection lead to its one flow. Where the flow of a socket stands in a table in
-- order, a packet with that socket is delivered to it as one of the source, unless its two ends are the
-- same, and a packet with the reverse socket is delivered to it as one of the destination.
pub table_add_packet_routes :
    (now : ℕ × ℕ) (memory : Flow) (t : FlowTable) (s : FlowSocket) (i ptr : ℕ) (p q : Packet)
    → IsTable t
    → find_open t s ≡ some i
    → socket_of p ≡ s
    → same_socket s (reverse_socket s) ≡ false
    → socket_of q ≡ reverse_socket s
    → (table_add_packet now memory t ptr p ≡ deliver_to now t (hash_flow s) i ptr p true)
      × (table_add_packet now memory t ptr q ≡ deliver_to now t (hash_flow s) i ptr q false)
unfolding table_add_packet add_backward add_forward
table_add_packet_routes now memory t s i ptr p q h found sp apart sq =
    let walked = sym (find_open-find_flow t s (h.shape (hash_flow s))) ∙ found in
    let (e, got, same, within, once) =
      find_flow-some (t.flow_hash_table (hash_flow s)).chain s i walked in
    let alone : occurs_in t (reverse_socket s) ≡ 0 = ground (arith, h.unique s) in
    let no_answer = find_open-absent t h (reverse_socket s) alone in
    (
      rw
          (
            ap (λ (r : FlowSocket). find_open t (reverse_socket r)) sp ∙ no_answer,
            ap (find_open t) sp ∙ found,
          )
          (ap (λ (r : FlowSocket). deliver_to now t (hash_flow r) i ptr p true) sp),
      rw (ap (λ (r : FlowSocket). find_open t (reverse_socket r)) sq ∙ found) (
          ap (λ (r : FlowSocket). deliver_to now t (hash_flow (reverse_socket r)) i ptr q false)
            sq),
    )
