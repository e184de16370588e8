-- ===== src/Tcp/Check.antt =====
-- What `tcp_order_check` decides.
use monitoring_tool.Prelude.{◌≡◌, ◌↔◌, refl, ap, true, some, List, [], ◌∷◌, ◌++◌, arith}
use monitoring_tool.Order.{Seq, Order}
use monitoring_tool.Tcp.{tcp_order_check, check_list, check_from}

-- Wherever two records stand next to one another, the second begins where the first ends.
abbrev pub IsContiguous : List Seq → Type 0
IsContiguous list =
    (front back : List Seq) (s t : Seq) → list ≡ front ++ (s ∷ t ∷ back) → s.nxt_seq ≡ t.seq

abbrev Links : Seq → List Seq → Type 0
Links s [] = Unit {0}
Links s (t ∷ ts) = (s.nxt_seq ≡ t.seq) × Links t ts

check_from-Links : (s : Seq) (ts : List Seq) → check_from s ts ≡ true → Links s ts
unfolding check_from
check_from-Links s [] h = tt
check_from-Links s (t ∷ ts) h = (ground arith, check_from-Links t ts (ground arith))

abbrev Linked : List Seq → Type 0
Linked [] = Unit {0}
Linked (s ∷ ts) = Links s ts

Linked-pair :
    (front back : List Seq) (s t : Seq) → Linked (front ++ (s ∷ t ∷ back)) → s.nxt_seq ≡ t.seq
Linked-pair [] back s t h = h.0
Linked-pair (u ∷ []) back s t h = h.1.0
Linked-pair (u ∷ w ∷ front) back s t h = Linked-pair (w ∷ front) back s t h.1

IsContiguous-tail : (s : Seq) (ts : List Seq) → IsContiguous (s ∷ ts) → IsContiguous ts
IsContiguous-tail s ts h front back u w e = h (s ∷ front) back u w (ap (λ (l : List Seq). s ∷ l) e)

check_list-Linked : (list : List Seq) → check_list list ≡ true → Linked list
unfolding check_list
check_list-Linked [] h = tt
check_list-Linked (s ∷ ts) h = check_from-Links s ts h

check_list-IsContiguous : (list : List Seq) → check_list list ≡ true → IsContiguous list
check_list-IsContiguous list h front back s t e =
    Linked-pair front back s t (rw e at (check_list-Linked list h))

IsContiguous-check_from : (s : Seq) (ts : List Seq) → IsContiguous (s ∷ ts) → check_from s ts ≡ true
unfolding check_from
IsContiguous-check_from s [] h = refl
IsContiguous-check_from s (t ∷ ts) h =
    ground (arith, h [] ts s t refl, IsContiguous-check_from t ts (IsContiguous-tail s (t ∷ ts) h))

IsContiguous-check_list : (list : List Seq) → IsContiguous list → check_list list ≡ true
unfolding check_list
IsContiguous-check_list [] h = refl
IsContiguous-check_list (s ∷ ts) h = IsContiguous-check_from s ts h

-- On an order that is not NULL, `tcp_order_check` answers true exactly when both lists are contiguous:
-- each record begins at the number where the one before it ends.
pub tcp_order_check_iff :
    (o : Order) → (tcp_order_check (some o) ≡ true) ↔ (IsContiguous o.src × IsContiguous o.dst)
unfolding tcp_order_check
tcp_order_check_iff o = (
  (λ h.
      (check_list-IsContiguous o.src (ground arith), check_list-IsContiguous o.dst (ground arith))),
  (λ h. rw (IsContiguous-check_list o.src h.0, IsContiguous-check_list o.dst h.1)),
)
