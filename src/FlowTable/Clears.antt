-- ===== src/FlowTable/Clears.antt =====
-- `FlowHashTable::clear`, src/flowHashTable.cpp.
use monitoring_tool.Prelude.{
  ℕ, ◌+◌, ◌<◌, ◌≡◌, refl, ◌∙◌, true, none, [], arith, ltb, leb, ◌&&◌, if◌then◌else◌, Bool-cases,
  inl, inr,
}
use monitoring_tool.Bucket.Clears.{nodes_from, clear_buckets-empties, slots_consumed-zero}
use monitoring_tool.FlowTable.{
  FlowSocket, FlowTable, hash_flow, reverse_socket, find_open, clear, scnt,
}
use monitoring_tool.FlowTable.Places.{IsTable}

hash_flow-lt : (s : FlowSocket) → hash_flow s < 13200
unfolding hash_flow
hash_flow-lt s = omega arith

-- A table whose buckets below the table's size are empty.
module _ (t : FlowTable) (h : IsTable t) where
  cleared_bucket :
      (j : ℕ)
      → (clear t).0.flow_hash_table j ≡ (
          if leb 0 j && ltb j (0 + 13200)
          then record { chain = []; last = none; elm_cnt = 0 }
          else t.flow_hash_table j)
  unfolding clear
  cleared_bucket j = (clear_buckets-empties 0 13200 t.flow_hash_table h.shape).0 j

  emptied :
      (s : FlowSocket)
      → (clear t).0.flow_hash_table (hash_flow s) ≡ record { chain = []; last = none; elm_cnt = 0 }
  emptied s =
      let inside : leb 0 (hash_flow s) && ltb (hash_flow s) (0 + 13200) ≡ true =
        ground (arith, hash_flow-lt s) in
      cleared_bucket (hash_flow s) ∙ rw inside refl

  clear-IsTable : IsTable (clear t).0
  clear-IsTable = record {
    shape = λ k. rw (cleared_bucket k) (elim (Bool-cases (leb 0 k && ltb k (0 + 13200))) [
      | inl inside ↦ rw inside (record { elm_cnt = refl; last = refl })
      | inr outside ↦ rw outside (h.shape k)
    ]);
    flows = λ k. rw (cleared_bucket k) (elim (Bool-cases (leb 0 k && ltb k (0 + 13200))) [
      | inl inside ↦ rw inside tt
      | inr outside ↦ rw outside (h.flows k)
    ]);
    closed = h.closed;
    queue = unfold clear in h.queue;
    unique = λ s.
        let here = emptied s in
        let back = emptied (reverse_socket s) in rw (here, back) (ground arith);
  }

-- `clear` of a table in order deletes every flow of its buckets once, in their order, and leaves a table
-- in order in which no socket has a flow and no bucket is consumed, with the flow queue as it was.
pub clear-empties :
    (t : FlowTable)
    → IsTable t
    → IsTable (clear t).0
      × ((clear t).1 ≡ nodes_from 0 13200 t.flow_hash_table)
      × ((s : FlowSocket) → find_open (clear t).0 s ≡ none)
      × (scnt (clear t).0 ≡ 0)
      × ((clear t).0.fq ≡ t.fq)
clear-empties t h = (
  clear-IsTable t h,
  unfold clear in (clear_buckets-empties 0 13200 t.flow_hash_table h.shape).1,
  λ s. unfold find_open in rw (emptied t h s) refl,
  unfold scnt in
      slots_consumed-zero 0 13200 (clear t).0.flow_hash_table (λ j low high.
        let inside : leb 0 j && ltb j (0 + 13200) ≡ true = ground arith in
        rw (cleared_bucket t h j, inside) refl),
  unfold clear in refl,
)
