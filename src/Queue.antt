-- ===== src/Queue.antt =====
-- The queues between the threads, c-http-sniffer/src/queue.cpp. The chain of nodes from `first` on is a
-- list, and `last`, which points into it, a position (`none` is NULL). Each operation runs under the
-- queue's mutex, so a queue goes from one operation to the next.
pub mod Fifo
pub mod Tests
use monitoring_tool.Prelude.{
  ℕ, zero, suc, ◌+◌, ◌-◌, Option, none, some, List, [], ◌∷◌, ◌++◌, ◌==◌, if◌then◌else◌, take, drop,
}
use monitoring_tool.Prelude.Partial.{◌>>=◌}
use mathlib.Core.Option

pub record Queue {ℓ} (A : Type ℓ) : Type ℓ where
  pub chain : List A
  pub last : Option ℕ
  pub qlen : ℕ

-- An operation of a thread.
pub data Op {ℓ} (A : Type ℓ) : Type ℓ where
  enqueue : A → Op A
  dequeue : Op A

module _ {ℓ} {A : Type ℓ} where
  abbrev pub new_queue : Queue A
  new_queue = record { chain = []; last = none; qlen = 0 }

  -- `last->next = node; last = node`: what followed `last` is cut off. `none`: `last` is NULL.
  pub link_last : Queue A → A → Option (Queue A)
  link_last q elem = do
    n ← q.last
    some (record {
      chain = take (n + 1) q.chain ++ elem ∷ [];
      last = some (n + 1);
      qlen = q.qlen + 1;
    })

  -- `none` is an access through NULL.
  unfoldable pub enq : Queue A → A → Option (Queue A)
  unfolding link_last
  enq q elem =
      if q.qlen == 0
      then some (record { chain = elem ∷ []; last = some 0; qlen = 1 })
      else link_last q elem

  -- `first = first->next`: `last` points to the same node, now one place further in front.
  pub unlink_first : Queue A → Option ℕ → List A → Queue A × Option A
  unlink_first q last [] = (record q { last = last }, none)
  unlink_first q last (elem ∷ rest) = (
    record { chain = rest; last = Option.map (λ (n : ℕ). n - 1) last; qlen = q.qlen - 1 },
    some elem,
  )

  unfoldable pub deq : Queue A → Queue A × Option A
  unfolding unlink_first
  deq q =
      if q.qlen == 0
      then (q, none)
      else unlink_first q (if q.qlen == 1 then none else q.last) q.chain

  -- `clear`: a round takes the first node and frees it. `none` is an access through NULL, the list the
  -- elements freed.
  pub clear_loop : ℕ → List A → List A → Option (List A)
  clear_loop zero chain freed = some freed
  clear_loop (suc qlen) [] freed = none
  clear_loop (suc qlen) (elem ∷ rest) freed = clear_loop qlen rest (freed ++ elem ∷ [])

  unfoldable pub clear : Queue A → Option (Queue A × List A)
  unfolding clear_loop
  clear q = do freed ← clear_loop q.qlen q.chain []; some (new_queue, freed)

  -- A sequence of operations, with the answers of its `deq`s.
  unfoldable pub run : Queue A → List (Op A) → Option (Queue A × List (Option A))
  unfolding enq deq
  run q [] = some (q, [])
  run q (enqueue x ∷ ops) = enq q x >>= λ q'. run q' ops
  run q (dequeue ∷ ops) = run (deq q).0 ops >>= λ r. some (r.0, (deq q).1 ∷ r.1)
