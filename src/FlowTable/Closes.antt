-- ===== src/FlowTable/Closes.antt =====
-- One flow that the scrubber of src/flowHashTable.cpp closes.
use native.Mathlib.Numerals.{add-one}
use monitoring_tool.Prelude.{
  ℕ, suc, ◌+◌, ◌-◌, ◌<◌, ◌≡◌, refl, ap, ◌∙◌, true, false, Option, some, List, [], ◌∷◌, ◌++◌, arith,
  ◌==◌, length, length-append, take, drop,
}
use monitoring_tool.Prelude.Partial.{>>=-returns}
use monitoring_tool.Queue.{Queue, enq}
use monitoring_tool.FlowTable.{OpenFlow, FlowTable, remove_flow}
use monitoring_tool.FlowTable.Places.{IsTable, remove_flow-IsTable, enq-IsTable}
use monitoring_tool.FlowTable.Scrubber.{is_dead, scrub_flow}

take-length :
    (front : List OpenFlow) (es : List OpenFlow) → take (length front) (front ++ es) ≡ front
take-length [] es = refl
take-length (x ∷ front) es = ap (λ (l : List OpenFlow). x ∷ l) (take-length front es)

drop-length :
    (front : List OpenFlow) (e : OpenFlow) (es : List OpenFlow)
    → drop (length front + 1) (front ++ (e ∷ es)) ≡ es
drop-length front e es = rw add-one (go front)
  where
    go : (front : List OpenFlow) → drop (suc (length front)) (front ++ (e ∷ es)) ≡ es
    go [] = refl
    go (x ∷ front) = go front

-- One flow that is closed, in front of `es` and behind `front`.
pub record Closed (k : ℕ) (t : FlowTable) (front es : List OpenFlow) (gone : OpenFlow)
    (made : Option (FlowTable × ℕ × ℕ)) : Type 0 where
  pub after : FlowTable
  pub returns : made ≡ some (after, length front, 1)
  pub table : IsTable after
  pub here : (after.flow_hash_table k).chain ≡ front ++ es
  pub elsewhere :
      (j : ℕ) → (j == k ≡ false) → (after.flow_hash_table j).chain ≡ (t.flow_hash_table j).chain
  pub queued : after.fq.chain ≡ t.fq.chain ++ gone ∷ []
  pub open_flows : after.flow_cnt ≡ t.flow_cnt - 1

pub scrub_flow-Closed :
    (now timeout k : ℕ) (t : FlowTable) (front : List OpenFlow) (e : OpenFlow) (es : List OpenFlow)
    → IsTable t
    → (t.flow_hash_table k).chain ≡ front ++ (e ∷ es)
    → is_dead now timeout e ≡ true
    → Closed k t front es
        (record e { flow = record e.flow { close = 4 } })
        (scrub_flow now timeout k (length front) t e)
unfolding scrub_flow
scrub_flow-Closed now timeout k t front e es h shape dead =
    let gone : OpenFlow = record e { flow = record e.flow { close = 4 } } in
    let within : length front < length (t.flow_hash_table k).chain =
      omega (arith, ap length shape, length-append front (e ∷ es)) in
    let (t', removed, table, same_fq, cnt, chains) =
      remove_flow-IsTable t k (length front) h within in
    let (q, put, table', queued) = enq-IsTable t' gone table in
    record {
      after = record t' { fq = q };
      returns = rw dead (
          >>=-returns (remove_flow t k (length front)) _ removed
            (>>=-returns (enq t'.fq gone) _ put refl));
      table = table';
      here = ground (arith, chains k, shape, take-length front (e ∷ es), drop-length front e es);
      elsewhere = λ j other. ground (arith, chains j);
      queued = queued ∙ ap (λ (f : Queue OpenFlow). f.chain ++ gone ∷ []) same_fq;
      open_flows = cnt;
    }
