-- ===== src/FlowTable/Scrubber.antt =====
-- The scrubber, `FlowHashTable::flow_scrubber` of src/flowHashTable.cpp: it closes the flows without a
-- packet for longer than `timeout` seconds, walking every chain while it takes flows out of it.

use monitoring_tool.Prelude.{
  ℕ, zero, suc, ◌+◌, ◌-◌, Bool, Option, some, List, [], ◌∷◌, ◌++◌, ltb, if◌then◌else◌,
}
use monitoring_tool.Prelude.Partial.{◌>>=◌}
use monitoring_tool.Queue.{enq}
use monitoring_tool.FlowTable.{OpenFlow, FlowTable, remove_flow}

-- `flow_scrubber`. `timeout` is the int argument converted to unsigned long, `now` the second.
abbrev pub is_dead : (now timeout : ℕ) → OpenFlow → Bool
is_dead now timeout e =
    ltb timeout ((now - e.flow.last_action_sec) + (e.flow.last_action_sec - now))

-- One flow of the walk, at a position of the chain as it is now: the table, the position of the next
-- flow, and how many were closed.
unfoldable pub scrub_flow :
    (now timeout k i : ℕ) → FlowTable → OpenFlow → Option (FlowTable × ℕ × ℕ)
unfolding remove_flow
scrub_flow now timeout k i t e =
    if is_dead now timeout e
    then (do
      t' ← remove_flow t k i
      q ← enq t'.fq (record e { flow = record e.flow { close = 4 } })
      some (record t' { fq = q }, i, 1))
    else some (t, i + 1, 0)

-- The walk over the flows that the chain of bucket `k` held at its start.
unfoldable pub scrub_chain :
    (now timeout k i : ℕ) → FlowTable → List OpenFlow → Option (FlowTable × ℕ)
unfolding scrub_flow
scrub_chain now timeout k i t [] = some (t, 0)
scrub_chain now timeout k i t (e ∷ es) = do
  one ← scrub_flow now timeout k i t e
  rest ← scrub_chain now timeout k one.1 one.0 es
  some (rest.0, one.2 + rest.1)

-- The buckets from `k` on, `n` of them. The number of flows closed is answered.
unfoldable pub scrub_buckets : (now timeout k n : ℕ) → FlowTable → Option (FlowTable × ℕ)
unfolding scrub_chain
scrub_buckets now timeout k zero t = some (t, 0)
scrub_buckets now timeout k (suc n) t = do
  one ← scrub_chain now timeout k 0 t (t.flow_hash_table k).chain
  rest ← scrub_buckets now timeout (k + 1) n one.0
  some (rest.0, one.1 + rest.1)

unfoldable pub flow_scrubber : (now timeout : ℕ) → FlowTable → Option (FlowTable × ℕ)
unfolding scrub_buckets
flow_scrubber now timeout t = scrub_buckets now timeout 0 13200 t

-- What the scrubber leaves of a chain, and what it puts into the flow queue.
abbrev pub alive : (now timeout : ℕ) → List OpenFlow → List OpenFlow
alive now timeout [] = []
alive now timeout (e ∷ es) =
    if is_dead now timeout e then alive now timeout es else e ∷ alive now timeout es

abbrev pub forced : (now timeout : ℕ) → List OpenFlow → List OpenFlow
forced now timeout [] = []
forced now timeout (e ∷ es) =
    if is_dead now timeout e
    then record e { flow = record e.flow { close = 4 } } ∷ forced now timeout es
    else forced now timeout es

-- The flows of `n` buckets from `k` on that are put into the queue.
abbrev pub forced_from : (now timeout k n : ℕ) → FlowTable → List OpenFlow
forced_from now timeout k zero t = []
forced_from now timeout k (suc n) t =
    forced now timeout (t.flow_hash_table k).chain ++ forced_from now timeout (k + 1) n t
