-- ===== src/FlowTable/Scrubs.antt =====
-- What the scrubber of src/flowHashTable.cpp leaves of a table in order.

use mathlib.Core.List.{append_assoc, append-nil}
use monitoring_tool.Prelude.{
  ℕ, zero, suc, ◌+◌, ◌-◌, ◌^◌, ◌≤◌, ◌<◌, ◌≡◌, refl, sym, ap, ◌∙◌, false, Option, some, List, [],
  ◌∷◌, ◌++◌, arith, ltb, leb, ◌&&◌, ◌==◌, if◌then◌else◌, length, length-append, All, Bool-cases,
  inl, inr,
}
use monitoring_tool.Prelude.Partial.{>>=-returns}
use monitoring_tool.FlowTable.{OpenFlow, FlowTable}
use monitoring_tool.FlowTable.Places.{IsTable}
use monitoring_tool.FlowTable.Scrubber.{
  is_dead, scrub_flow, scrub_chain, scrub_buckets, flow_scrubber, alive, forced, forced_from,
}
use monitoring_tool.FlowTable.Closes.{scrub_flow-Closed}

-- What a part of the walk leaves of the table: `left` says what of each chain.
pub record Scrubbed (t : FlowTable) (made : Option (FlowTable × ℕ)) (gone : List OpenFlow)
    (left : ℕ → List OpenFlow) : Type 0 where
  pub after : FlowTable
  pub num : ℕ
  pub returns : made ≡ some (after, num)
  pub table : IsTable after
  pub chains : (j : ℕ) → (after.flow_hash_table j).chain ≡ left j
  pub queued : after.fq.chain ≡ t.fq.chain ++ gone
  pub counted : num ≡ length gone
  pub open_flows : after.flow_cnt ≡ t.flow_cnt - num

scrub_chain-Scrubbed :
    (now timeout k : ℕ) (t : FlowTable) (front es : List OpenFlow)
    → IsTable t
    → (t.flow_hash_table k).chain ≡ front ++ es
    → Scrubbed t
        (scrub_chain now timeout k (length front) t es)
        (forced now timeout es)
        (λ j. if j == k then front ++ alive now timeout es else (t.flow_hash_table j).chain)
unfolding scrub_chain
scrub_chain-Scrubbed now timeout k t front [] h e = record {
  after = t;
  num = 0;
  returns = refl;
  table = h;
  chains = λ j. elim (Bool-cases (j == k)) [
    | inl here ↦ let same : j ≡ k = ground arith in rw (here, same) e
    | inr elsewhere ↦ rw elsewhere refl
  ];
  queued = sym (append-nil t.fq.chain);
  counted = refl;
  open_flows = omega arith;
}
scrub_chain-Scrubbed now timeout k t front (e ∷ es) h shape =
    elim (Bool-cases (is_dead now timeout e)) [
      | inl dead ↦
          let o = scrub_flow-Closed now timeout k t front e es h shape dead in
          let r = scrub_chain-Scrubbed now timeout k o.after front es o.table o.here in
          let gone : OpenFlow = record e { flow = record e.flow { close = 4 } } in
          record {
            after = r.after;
            num = 1 + r.num;
            returns = >>=-returns (scrub_flow now timeout k (length front) t e) _ o.returns (
                >>=-returns (scrub_chain now timeout k (length front) o.after es) _ r.returns refl);
            table = r.table;
            chains = λ j. rw dead (ground (arith, r.chains j, o.elsewhere j));
            queued = rw dead (
                r.queued
                ∙ ap (λ (l : List OpenFlow). l ++ forced now timeout es) o.queued
                ∙ append_assoc t.fq.chain (gone ∷ []) (forced now timeout es));
            counted = rw dead (omega (arith, r.counted));
            open_flows = omega (arith, r.open_flows, o.open_flows);
          }
      | inr living ↦
          let next = front ++ e ∷ [] in
          let shape' = shape ∙ sym (append_assoc front (e ∷ []) es) in
          let r = scrub_chain-Scrubbed now timeout k t next es h shape' in
          let at : length next ≡ length front + 1 = omega (arith, length-append front (e ∷ [])) in
          record {
            after = r.after;
            num = 0 + r.num;
            returns =
                >>=-returns (scrub_flow now timeout k (length front) t e) _
                  (unfold scrub_flow in rw living refl)
                  (>>=-returns (scrub_chain now timeout k (length front + 1) t es) _
                    (rw at at r.returns) refl);
            table = r.table;
            chains = λ j. rw living (
                r.chains j
                ∙ ap (λ (l : List OpenFlow). if j == k then l else (t.flow_hash_table j).chain)
                    (append_assoc front (e ∷ []) (alive now timeout es)));
            queued = rw living r.queued;
            counted = rw living (omega (arith, r.counted));
            open_flows = omega (arith, r.open_flows);
          }
    ]

forced_from_congr :
    (now timeout k n : ℕ) (t u : FlowTable)
    → ((j : ℕ) → k ≤ j → (t.flow_hash_table j).chain ≡ (u.flow_hash_table j).chain)
    → forced_from now timeout k n t ≡ forced_from now timeout k n u
forced_from_congr now timeout k zero t u h = refl
forced_from_congr now timeout k (suc n) t u h =
    rw (
      h k (omega arith),
      forced_from_congr now timeout (k + 1) n t u (λ j above. h j (omega arith)),
    )

scrub_buckets-Scrubbed :
    (now timeout k n : ℕ) (t : FlowTable)
    → IsTable t
    → Scrubbed t (scrub_buckets now timeout k n t) (forced_from now timeout k n t) (λ j.
      if leb k j && ltb j (k + n)
      then alive now timeout (t.flow_hash_table j).chain
      else (t.flow_hash_table j).chain)
unfolding scrub_buckets
scrub_buckets-Scrubbed now timeout k zero t h = record {
  after = t;
  num = 0;
  returns = refl;
  table = h;
  chains = λ j. ground arith;
  queued = sym (append-nil t.fq.chain);
  counted = refl;
  open_flows = omega arith;
}
scrub_buckets-Scrubbed now timeout k (suc n) t h =
    let one = scrub_chain-Scrubbed now timeout k t [] (t.flow_hash_table k).chain h refl in
    let rest = scrub_buckets-Scrubbed now timeout (k + 1) n one.after one.table in
    let same : forced_from now timeout (k + 1) n one.after ≡ forced_from now timeout (k + 1) n t =
      forced_from_congr now timeout (k + 1) n one.after t
        (λ j above. ground (arith, one.chains j)) in
    record {
      after = rest.after;
      num = one.num + rest.num;
      returns =
          >>=-returns (scrub_chain now timeout k 0 t (t.flow_hash_table k).chain) _ one.returns
            (>>=-returns (scrub_buckets now timeout (k + 1) n one.after) _ rest.returns refl);
      table = rest.table;
      chains = λ j. elim (Bool-cases (j == k)) [
        | inl here ↦ ground (arith, rest.chains j, one.chains j)
        | inr other ↦ ground (arith, rest.chains j, one.chains j)
      ];
      queued =
          rest.queued
          ∙ ap (λ (l : List OpenFlow). one.after.fq.chain ++ l) same
          ∙ ap (λ (l : List OpenFlow). l ++ forced_from now timeout (k + 1) n t) one.queued
          ∙ append_assoc t.fq.chain (forced now timeout (t.flow_hash_table k).chain)
              (forced_from now timeout (k + 1) n t);
      counted = omega (
        arith,
        one.counted,
        rest.counted,
        ap length same,
        length-append (forced now timeout (t.flow_hash_table k).chain)
            (forced_from now timeout (k + 1) n t),
      );
      open_flows = omega (arith, one.open_flows, rest.open_flows);
    }

-- On a table in order the scrubber always comes back with a table in order. Of every chain it leaves the
-- flows that had a packet within `timeout` seconds, in their order, and it puts the others, closed by
-- force, into the flow queue behind what stands there, bucket by bucket and in the order of each chain.
-- Its answer is how many these are, and the count of the open flows is less by as many.
pub flow_scrubber-Scrubbed :
    (now timeout : ℕ) (t : FlowTable)
    → IsTable t
    → Scrubbed t (flow_scrubber now timeout t) (forced_from now timeout 0 13200 t) (λ j.
      if leb 0 j && ltb j 13200
      then alive now timeout (t.flow_hash_table j).chain
      else (t.flow_hash_table j).chain)
unfolding flow_scrubber
flow_scrubber-Scrubbed now timeout t h = scrub_buckets-Scrubbed now timeout 0 13200 t h

alive_whole :
    (now : ℕ) (es : List OpenFlow)
    → now < 2 ^ 64
    → All (λ (e : OpenFlow). e.flow.last_action_sec < 2 ^ 64) es
    → (alive now (2 ^ 64 - 1) es ≡ es) × (forced now (2 ^ 64 - 1) es ≡ [])
alive_whole now [] bound h = (refl, refl)
alive_whole now (e ∷ es) bound h =
    let (rest, gone) = alive_whole now es bound h.1 in
    let living : is_dead now (2 ^ 64 - 1) e ≡ false = ground (arith, h.0) in
    (rw (living, rest), rw (living, gone))

forced_from_nothing :
    (now k n : ℕ) (t : FlowTable)
    → now < 2 ^ 64
    → ((j : ℕ)
        → All (λ (e : OpenFlow). e.flow.last_action_sec < 2 ^ 64) (t.flow_hash_table j).chain)
    → forced_from now (2 ^ 64 - 1) k n t ≡ []
forced_from_nothing now k zero t bound h = refl
forced_from_nothing now k (suc n) t bound h = rw (
  (alive_whole now (t.flow_hash_table k).chain bound (h k)).1,
  forced_from_nothing now (k + 1) n t bound h,
)

-- The scrubber that main.c runs at the end of a file, `flow_scrubber(-1)`, closes no flow: the timeout
-- is converted to the largest number of 64 bits, so on a table in order, with times of 64 bits, the
-- answer is 0, and every chain and the flow queue are as before.
pub flow_scrubber_never :
    (now : ℕ) (t : FlowTable)
    → IsTable t
    → now < 2 ^ 64
    → ((j : ℕ)
        → All (λ (e : OpenFlow). e.flow.last_action_sec < 2 ^ 64) (t.flow_hash_table j).chain)
    → (u : FlowTable) × (flow_scrubber now (2 ^ 64 - 1) t ≡ some (u, 0))
      × ((j : ℕ) → (u.flow_hash_table j).chain ≡ (t.flow_hash_table j).chain)
      × (u.fq.chain ≡ t.fq.chain)
flow_scrubber_never now t h bound times =
    let r = flow_scrubber-Scrubbed now (2 ^ 64 - 1) t h in
    let nothing = forced_from_nothing now 0 13200 t bound times in
    let none_closed : r.num ≡ 0 = r.counted ∙ ap length nothing in
    (
      r.after,
      rw none_closed at r.returns,
      λ j.
          ground
            (arith, r.chains j, (alive_whole now (t.flow_hash_table j).chain bound (times j)).0),
      r.queued ∙ ap (λ (l : List OpenFlow). t.fq.chain ++ l) nothing ∙ append-nil t.fq.chain,
    )
