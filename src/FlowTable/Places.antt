-- ===== src/FlowTable/Places.antt =====
-- The invariant of the table, and the changes of one bucket that keep it.
use native.Mathlib.Numerals.{add-one}
use monitoring_tool.Prelude.{
  ℕ, zero, suc, ◌+◌, ◌-◌, ◌≤◌, ◌<◌, ◌≡◌, refl, sym, ap, ◌∙◌, some, List, [], ◌∷◌, ◌++◌, arith, ◌==◌,
  if◌then◌else◌, length, get_elem?, set, length-set, take, drop, Bool-cases, inl, inr, All, All-get,
}
use monitoring_tool.Prelude.Partial.{>>=-returns}
use monitoring_tool.Queue.{Queue, enq}
use monitoring_tool.Queue.Fifo.{last_position, Holds, enq-Holds}
use monitoring_tool.Bucket.{Bucket}
use monitoring_tool.Bucket.Shape.{IsBucket, unlink_shape}
use monitoring_tool.Flow.{Ending, stays, dropped, finished}
use monitoring_tool.Flow.Owns.{IsFlow}
use monitoring_tool.FlowTable.{
  FlowSocket, OpenFlow, FlowTable, hash_flow, with_chain, remove_flow, settle, reverse_socket,
}
use monitoring_tool.FlowTable.Lookup.{occurs, occurs_in, IsUnique, occurs-set, occurs-remove-le}

-- A well-formed flow in the bucket of its socket.
abbrev pub IsHome : ℕ → OpenFlow → Type 0
IsHome k e = IsFlow e.flow × (hash_flow e.socket ≡ k)

pub record IsTable (t : FlowTable) : Type 0 where
  pub shape : (k : ℕ) → IsBucket (t.flow_hash_table k)
  pub flows : (k : ℕ) → All (IsHome k) (t.flow_hash_table k).chain
  pub closed : List OpenFlow
  pub queue : Holds t.fq closed
  pub unique : IsUnique t

module _ {E : Type 0} (P : E → Type 0) where
  pub All-set : (es : List E) (i : ℕ) (e : E) → All P es → P e → All P (set es i e)
  All-set [] i e a p = tt
  All-set (x ∷ es) zero e a p = (p, a.1)
  All-set (x ∷ es) (suc i) e a p = (a.0, All-set es i e a.1 p)

  All-drop : (es : List E) (i : ℕ) → All P es → All P (take i es ++ drop (suc i) es)
  All-drop [] zero a = tt
  All-drop [] (suc i) a = tt
  All-drop (x ∷ es) zero a = a.1
  All-drop (x ∷ es) (suc i) a = (a.0, All-drop es i a.1)

  pub All-remove : (es : List E) (i : ℕ) → All P es → All P (take i es ++ drop (i + 1) es)
  All-remove es i a = rw add-one (All-drop es i a)

pub last_position-set :
    {E : Type 0} (es : List E) (i : ℕ) (e : E) → last_position (set es i e) ≡ last_position es
last_position-set [] i e = refl
last_position-set (x ∷ es) zero e = refl
last_position-set (x ∷ es) (suc i) e = ap some (length-set es i e)

-- One bucket of the table is another.
module _ (t : FlowTable) (k : ℕ) (b : Bucket OpenFlow) where
  pub shape-with_chain :
      ((i : ℕ) → IsBucket (t.flow_hash_table i))
      → IsBucket b
      → (i : ℕ) → IsBucket ((with_chain t k b).flow_hash_table i)
  shape-with_chain h shape i = elim (Bool-cases (i == k)) [
    | inl here ↦ rw here shape
    | inr elsewhere ↦ rw elsewhere (h i)
  ]

  pub flows-with_chain :
      ((i : ℕ) → All (IsHome i) (t.flow_hash_table i).chain)
      → All (IsHome k) b.chain
      → (i : ℕ) → All (IsHome i) ((with_chain t k b).flow_hash_table i).chain
  flows-with_chain h flows i = elim (Bool-cases (i == k)) [
    | inl here ↦ let same : i ≡ k = ground arith in rw (here, same) flows
    | inr elsewhere ↦ rw elsewhere (h i)
  ]

-- Another bucket in which no socket stands more often.
pub put-IsTable :
    (t : FlowTable) (k : ℕ) (b : Bucket OpenFlow) (cnt : ℕ) (q : Queue OpenFlow)
    (xs : List OpenFlow)
    → IsTable t
    → IsBucket b
    → All (IsHome k) b.chain
    → ((s : FlowSocket) → occurs s b.chain ≤ occurs s (t.flow_hash_table k).chain)
    → Holds q xs
    → IsTable (record (with_chain t k b) { flow_cnt = cnt; fq = q })
put-IsTable t k b cnt q xs h shape flows fewer queue = record {
  shape = shape-with_chain t k b h.shape shape;
  flows = flows-with_chain t k b h.flows flows;
  closed = xs;
  queue = queue;
  unique = λ s. ground (arith, h.unique s, less s, less (reverse_socket s));
}
  where
    less : (s : FlowSocket) → occurs_in (with_chain t k b) s ≤ occurs_in t s
    less s = elim (Bool-cases (hash_flow s == k)) [
      | inl here ↦ let same : hash_flow s ≡ k = ground arith in rw (here, same) (fewer s)
      | inr elsewhere ↦ rw elsewhere (omega arith)
    ]

-- A flow is taken out of its bucket.
pub remove_flow-IsTable :
    (t : FlowTable) (k i : ℕ)
    → IsTable t
    → i < length (t.flow_hash_table k).chain
    → (t' : FlowTable) × (remove_flow t k i ≡ some t')
      × IsTable t'
      × (t'.fq ≡ t.fq)
      × (t'.flow_cnt ≡ t.flow_cnt - 1)
      × ((j : ℕ)
          → (t'.flow_hash_table j).chain ≡ (
              if j == k
              then take i (t.flow_hash_table k).chain ++ drop (i + 1) (t.flow_hash_table k).chain
              else (t.flow_hash_table j).chain))
unfolding remove_flow
remove_flow-IsTable t k i h within =
    let hm = t.flow_hash_table k in
    let (b, unlinked, shape, left) = unlink_shape hm i within (h.shape k) in
    (
      record (with_chain t k b) { flow_cnt = t.flow_cnt - 1 },
      rw unlinked,
      put-IsTable t k b (t.flow_cnt - 1) t.fq h.closed h shape
          (rw left (All-remove (IsHome k) hm.chain i (h.flows k)))
          (λ s. rw left (occurs-remove-le s hm.chain i)) h.queue,
      refl,
      refl,
      (λ j. elim (Bool-cases (j == k)) [
        | inl here ↦ rw here left
        | inr elsewhere ↦ rw elsewhere refl
      ]),
    )

-- The queue with one more flow behind.
pub enq-IsTable :
    (t : FlowTable) (e : OpenFlow)
    → IsTable t
    → (q : Queue OpenFlow) × (enq t.fq e ≡ some q)
      × IsTable (record t { fq = q })
      × (q.chain ≡ t.fq.chain ++ e ∷ [])
enq-IsTable t e h =
    let (q, put, holds) = enq-Holds t.fq h.closed e h.queue in
    (
      q,
      put,
      record {
        shape = h.shape;
        flows = h.flows;
        closed = h.closed ++ e ∷ [];
        queue = holds;
        unique = h.unique;
      },
      holds.chain ∙ ap (λ (l : List OpenFlow). l ++ e ∷ []) (sym h.queue.chain),
    )

-- What a packet leaves of its flow keeps the table in order.
pub settle-IsTable :
    (t : FlowTable) (k i : ℕ) (e e' : OpenFlow) (ending : Ending)
    → IsTable t
    → get_elem? (t.flow_hash_table k).chain i ≡ some e
    → i < length (t.flow_hash_table k).chain
    → e'.socket ≡ e.socket
    → IsFlow e'.flow
    → (t' : FlowTable) × (settle t k i e' ending ≡ some t') × IsTable t'
unfolding settle
settle-IsTable t k i e e' stays h got within same valid =
    let hm = t.flow_hash_table k in
    let b : Bucket OpenFlow = record hm { chain = set hm.chain i e' } in
    (
      with_chain t k b,
      refl,
      put-IsTable t k b t.flow_cnt t.fq h.closed h
          (record {
            elm_cnt = (h.shape k).elm_cnt ∙ sym (length-set hm.chain i e');
            last = (h.shape k).last ∙ sym (last_position-set hm.chain i e');
          })
          (All-set (IsHome k) hm.chain i e' (h.flows k)
            (valid, ap hash_flow same ∙ (All-get (IsHome k) hm.chain i e got (h.flows k)).1))
          (λ s. omega (arith, occurs-set s hm.chain i e e' got same)) h.queue,
    )
settle-IsTable t k i e e' dropped h got within same valid =
    let (t', removed, table, _, _, _) = remove_flow-IsTable t k i h within in (t', removed, table)
settle-IsTable t k i e e' finished h got within same valid =
    let (t', removed, table, _, _, _) = remove_flow-IsTable t k i h within in
    let (q, put, table', _) = enq-IsTable t' e' table in
    (
      record t' { fq = q },
      >>=-returns (remove_flow t k i) _ removed (>>=-returns (enq t'.fq e') _ put refl),
      table',
    )
