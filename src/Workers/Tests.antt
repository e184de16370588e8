-- ===== src/Workers/Tests.antt =====
-- Threads that note what they are given, in the reversed order.
use monitoring_tool.Prelude.{
  ℕ, ◌≡◌, refl, true, false, ◌==◌, if◌then◌else◌, none, some, List, [], ◌∷◌, arith, replicate,
}
use monitoring_tool.Queue.{Queue, new_queue}
use monitoring_tool.Queue.Fifo.{Holds, new_queue-Holds}
use monitoring_tool.Workers.{
  left, running, Turn, Round, process_packet, process_queues, Capture, Captured, capture_main,
}
use monitoring_tool.Workers.Drains.{idle, process_packet-drains}
use monitoring_tool.Workers.Rounds.{AreServed, coming, process_queues-AreServed}
use monitoring_tool.Workers.Captures.{IsCaptured, capture_main-IsCaptured}

abbrev note : List ℕ → ℕ → List ℕ
note h x = x ∷ h

abbrev two_packets : Turn ℕ
two_packets = record { arrivals = 7 ∷ []; between = 8 ∷ []; stopped = false }

process_packet-drains_example :
    (q : Queue ℕ) × (process_packet note (two_packets ∷ replicate 3 idle) new_queue []
      ≡ some (left, q, 8 ∷ 7 ∷ []))
    × Holds q []
process_packet-drains_example =
    process_packet-drains note (two_packets ∷ []) 3 new_queue [] [] new_queue-Holds (refl, tt)
      (omega arith)

abbrev three : Queue ℕ
three = record { chain = 1 ∷ 2 ∷ 3 ∷ []; last = some 2; qlen = 3 }

three-Holds : Holds three (1 ∷ 2 ∷ 3 ∷ [])
three-Holds = record { chain = refl; last = refl; qlen = refl }

-- Two turns: 9 comes into the second queue before its second `deq`, and 5 before the analysis is stopped.
abbrev quiet : Round ℕ
quiet = record { arrivals = λ j. []; stopped = false }

abbrev nine : Round ℕ
nine = record { arrivals = λ j. if j == 1 then 9 ∷ [] else []; stopped = false }

abbrev five_last : Round ℕ
five_last = record { arrivals = λ j. if j == 1 then 5 ∷ [] else []; stopped = true }

process_queues-AreServed_example :
    (protocols : List (Queue ℕ × List ℕ)) × (process_queues note
        (quiet ∷ nine ∷ five_last ∷ [])
        ((three, []) ∷ (new_queue, []) ∷ [])
      ≡ some (left, protocols))
    × AreServed note 2 0
        (coming (λ j. []) (quiet ∷ nine ∷ five_last ∷ []))
        protocols
        ((1 ∷ 2 ∷ 3 ∷ [], []) ∷ ([], []) ∷ [])
process_queues-AreServed_example =
    process_queues-AreServed note (quiet ∷ nine ∷ []) [] five_last
      ((three, []) ∷ (new_queue, []) ∷ []) ((1 ∷ 2 ∷ 3 ∷ [], []) ∷ ([], []) ∷ []) (refl, (refl, tt))
      refl ((three-Holds, refl), ((new_queue-Holds, refl), tt))

-- A packet that comes between `deq` and `isStopped` is left in the queue.
abbrev late : Turn ℕ
late = record { arrivals = []; between = 7 ∷ []; stopped = true }

late_lost :
    process_packet note (late ∷ []) new_queue []
    ≡ some (left, record { chain = 7 ∷ []; last = some 0; qlen = 1 }, [])
unfolding process_packet
late_lost = refl

abbrev nothing : Capture
nothing = record { raw = none; len = 0; stopped = false }

abbrev frame : Capture
frame = record { raw = some (replicate 60 1); len = 60; stopped = false }

abbrev empty : Captured
empty = record { rpq = new_queue; pak = 0; has_stopped = false }

capture_main-IsCaptured_example :
    (c : Captured) × (capture_main true (nothing ∷ frame ∷ []) empty ≡ some (running, c))
    × IsCaptured c (replicate 60 1 ∷ []) 1 false
capture_main-IsCaptured_example =
    capture_main-IsCaptured true (nothing ∷ frame ∷ []) empty [] 0 false
      ((refl, refl), ((refl, refl), tt)) (omega arith)
      (record { rpq = new_queue-Holds; pak = refl; has_stopped = refl })
