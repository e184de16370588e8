-- ===== src/Queue/Tests.antt =====
-- A run of the queue, and its theorem at it.
use monitoring_tool.Prelude.{ℕ, ◌≡◌, refl, none, some, List, [], ◌∷◌, length}
use monitoring_tool.Queue.{Queue, Op, enqueue, dequeue, new_queue, run}
use monitoring_tool.Queue.Fifo.{fifo, run-fifo}

abbrev some_ops : List (Op ℕ)
some_ops =
    dequeue
    ∷ enqueue 7
    ∷ enqueue 8
    ∷ dequeue
    ∷ enqueue 9
    ∷ dequeue
    ∷ dequeue
    ∷ dequeue
    ∷ enqueue 5
    ∷ []

answers :
    run new_queue some_ops
    ≡ some (
      record { chain = 5 ∷ []; last = some 0; qlen = 1 },
      none ∷ some 7 ∷ some 8 ∷ some 9 ∷ none ∷ [],
    )
unfolding run
answers = refl

run-fifo_example :
    (q : Queue ℕ) × (run new_queue some_ops ≡ some (q, (fifo [] some_ops).1))
    × (q.chain ≡ (fifo [] some_ops).0)
    × (q.qlen ≡ length (fifo [] some_ops).0)
run-fifo_example = run-fifo some_ops
