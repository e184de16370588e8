-- ===== src/Tcp/Tests.antt =====
-- Runs of tcp.c on a few segments, and its theorems at them.
use monitoring_tool.Prelude.{ℕ, ◌≡◌, refl, true, false, Option, some, List, [], ◌∷◌, arith}
use monitoring_tool.Order.{Seq, Order, order_new, seq_new}
use monitoring_tool.Tcp.{tcp_order, tcp_order_check}
use monitoring_tool.Tcp.Advance.{IsValid, Advances, side, tcp_order-Advances}
use monitoring_tool.Tcp.Deliver.{deliver, deliver-stream}
use monitoring_tool.Tcp.Check.{IsContiguous, tcp_order_check_iff}
use monitoring_tool.Tcp.Ordered.{IsOrdered}
use monitoring_tool.Tcp.Sorted.{IsOrdered-tcp_order}

-- The record of the bytes from `a` to `b`.
abbrev segment : ℕ → ℕ → Seq
segment a b = record seq_new { seq = a; nxt_seq = b }

abbrev holding : List Seq → Option ℕ → ℕ → Order
holding src last num = record order_new { src = src; last_src = last; num = num }

abbrev gap_list : List Seq
gap_list = segment 100 200 ∷ segment 300 400 ∷ []

gap_IsValid : IsValid (holding gap_list (some 1) 2)
gap_IsValid = record { last_src = omega arith; last_dst = tt; counted = omega arith }

one_IsValid : IsValid (holding (segment 100 200 ∷ []) (some 0) 1)
one_IsValid = record { last_src = omega arith; last_dst = tt; counted = omega arith }

-- A hole is filled, and the new record is cut where it reaches into its follower.
fill :
    tcp_order (holding gap_list (some 1) 2) (segment 200 350) true
    ≡ some (holding (segment 100 200 ∷ segment 200 300 ∷ segment 300 400 ∷ []) (some 1) 3, 0)
unfolding tcp_order
fill = refl

repeated :
    tcp_order (holding gap_list (some 1) 2) (segment 150 200) true
    ≡ some (holding gap_list (some 1) 2, 1)
unfolding tcp_order
repeated = refl

tcp_order-Advances_example : Advances (holding gap_list (some 1) 2) (segment 200 350) true
tcp_order-Advances_example =
    tcp_order-Advances (holding gap_list (some 1) 2) (segment 200 350) true gap_IsValid

deliver-stream_example :
    (o : Order) × (deliver true order_new (segment 5 9 ∷ segment 9 12 ∷ segment 12 20 ∷ [])
      ≡ some o)
    × (side true o ≡ segment 5 9 ∷ segment 9 12 ∷ segment 12 20 ∷ [])
    × (side false o ≡ [])
    × (tcp_order_check (some o) ≡ true)
deliver-stream_example =
    deliver-stream true (segment 5 9 ∷ segment 9 12 ∷ segment 12 20 ∷ []) 5 (omega arith)
      (omega arith)

tcp_order_check_iff_example :
    (tcp_order_check (some (holding gap_list (some 1) 2)) ≡ true
      → IsContiguous gap_list × IsContiguous [])
    × (IsContiguous gap_list × IsContiguous []
        → tcp_order_check (some (holding gap_list (some 1) 2)) ≡ true)
tcp_order_check_iff_example = tcp_order_check_iff (holding gap_list (some 1) 2)

IsOrdered-tcp_order_example :
    (o' : Order) × (code : ℕ) × (tcp_order (holding gap_list (some 1) 2) (segment 150 350) true
      ≡ some (o', code))
    × IsOrdered (side true o')
IsOrdered-tcp_order_example =
    IsOrdered-tcp_order (holding gap_list (some 1) 2) (segment 150 350) true gap_IsValid
      (omega arith) (omega arith) (omega arith) (omega arith)
