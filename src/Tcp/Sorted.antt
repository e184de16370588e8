-- ===== src/Tcp/Sorted.antt =====
-- Segments out of order: where `tcp_order` keeps a list ordered.

use mathlib.Core.Option
use monitoring_tool.Prelude.{
  ℕ, suc, ◌≤◌, ◌<◌, ◌≡◌, refl, ◌∙◌, Bool, inl, inr, Option, none, some, List, [], ◌∷◌, ◌++◌, arith,
  leb, ◌==◌, Bool-cases, Option-cases,
}
use mathlib.Core.Path.{subst}
use monitoring_tool.Tcp.Ordered.{
  Before, IsSegment, IsOrdered, GapClear, IsClear, Suits, IsOrdered-part, IsClear-part,
  cont_from-gap, IsOrdered-place,
}
use monitoring_tool.Order.{Seq, Order}
use monitoring_tool.Tcp.{
  Cursor, cursor, cont_from, tcp_cont_seq, search_from, search_position, Placed, place, at_end,
  place_search, order_stream, tcp_order,
}
use monitoring_tool.Tcp.Cursors.{
  whole, whole-tcp_cont_seq, whole-search_position, LastIn, cursor_at-some,
}
use monitoring_tool.Tcp.Advance.{IsValid, side, last_of, tcp_order-Advances}
use monitoring_tool.Tcp.Deliver.{side-tcp_order, LastIn-side}

-- What the search finds suits the new record.
search_from-Suits :
    (x : ℕ) (b : List Seq) (pre : Seq) (rest : List Seq) (c : Cursor)
    → search_from x b pre rest ≡ some c
    → pre.nxt_seq ≤ x
    → (t : Seq) × (ts : List Seq) × (c.after ≡ t ∷ ts) × (x < t.nxt_seq) × (c.here.nxt_seq ≤ x)
unfolding search_from
search_from-Suits x b pre [] c e h = cc
search_from-Suits x b pre (cp ∷ rest) c e h = elim (Bool-cases (leb cp.nxt_seq x)) [
  | inl passed ↦ search_from-Suits x (b ++ pre ∷ []) cp rest c (rw passed at e) (ground arith)
  | inr found ↦ (cp, rest, ground arith, ground arith, ground arith)
]

-- The run behind a record that ends at `x` or before, where the next record reaches beyond `x`.
run-Suits :
    (x : ℕ) (b : List Seq) (pre t : Seq) (ts : List Seq)
    → IsOrdered (pre ∷ t ∷ ts)
    → GapClear x pre (t ∷ ts)
    → pre.nxt_seq ≤ x
    → x < t.nxt_seq
    → Suits x pre.seq (cont_from b pre (t ∷ ts))
unfolding cont_from
run-Suits x b pre t ts h clear lo hi = elim (Bool-cases (pre.nxt_seq == t.seq)) [
  | inl joined ↦ rw joined (
      let (gap, up) = cont_from-gap (b ++ pre ∷ []) t ts h.2 in
      record { from = omega arith; gap = gap; room = λ k. absurd (omega arith) })
  | inr gap ↦ rw gap (record { from = omega arith; gap = ground arith; room = λ k. ground arith })
]

Before-mono : (x y : ℕ) (a : List Seq) → x ≤ y → Before y a → Before x a
Before-mono x y [] h b = tt
Before-mono x y (s ∷ ss) h b = omega arith

-- The run behind a record that ends at `x`.
last-Suits :
    (x : ℕ) (l : Cursor)
    → IsOrdered (l.here ∷ l.after)
    → l.here.nxt_seq ≡ x
    → Suits x l.here.seq (tcp_cont_seq l)
unfolding tcp_cont_seq
last-Suits x l h e =
    let (gap, up) = cont_from-gap l.before l.here l.after h in
    record {
      from = omega arith;
      gap = gap;
      room = λ k. Before-mono (suc x) (suc (tcp_cont_seq l).here.nxt_seq) _ (omega arith) gap;
    }

-- The run behind the first record, if that reaches beyond `x`.
first-Suits :
    (x : ℕ) (first : Seq) (rest : List Seq)
    → IsOrdered (first ∷ rest)
    → first.seq ≤ x
    → x < first.nxt_seq
    → Suits x first.seq (cont_from [] first rest)
first-Suits x first rest h lo hi =
    let (gap, up) = cont_from-gap [] first rest h in
    record { from = lo; gap = gap; room = λ k. absurd (omega arith) }

search_from-end :
    (x : ℕ) (b : List Seq) (pre : Seq) (rest : List Seq) (new : Seq)
    → search_from x b pre rest ≡ none
    → pre.nxt_seq ≤ x
    → new.seq ≡ x
    → IsSegment new
    → IsOrdered (pre ∷ rest)
    → IsOrdered (pre ∷ (rest ++ new ∷ []))
unfolding search_from
search_from-end x b pre [] new e lo at g h = (h.0, omega arith, (g, tt, tt))
search_from-end x b pre (cp ∷ rest) new e lo at g h = elim (Bool-cases (leb cp.nxt_seq x)) [
  | inl passed ↦ (
    h.0,
    h.1,
    search_from-end x (b ++ pre ∷ []) cp rest new (rw passed at e) (ground arith) at g h.2,
  )
  | inr found ↦ absurd (ground arith)
]

search_position-none :
    (x : ℕ) (first : Seq) (rest : List Seq)
    → search_position x first rest ≡ none
    → (first.nxt_seq ≤ x) × (search_from x [] first rest ≡ none)
unfolding search_position
search_position-none x first rest e = ground arith

module _ (first : Seq) (rest : List Seq) (last : Option ℕ) (new : Seq)
    (ordered : IsOrdered (first ∷ rest)) (segment : IsSegment new) (behind : first.seq ≤ new.seq)
    (clear : IsClear new.seq (first ∷ rest)) where
  IsOrdered-found :
      (pre : Cursor)
      → whole pre ≡ first ∷ rest
      → Suits new.seq pre.here.seq (tcp_cont_seq pre)
      → IsOrdered (place (first ∷ rest) last pre.here.seq (tcp_cont_seq pre) new).list
  IsOrdered-found pre same suits =
      IsOrdered-place (first ∷ rest) last new (tcp_cont_seq pre) (whole-tcp_cont_seq pre ∙ same)
        ordered segment pre.here.seq suits

  search-Suits :
      (pre : Cursor)
      → search_position new.seq first rest ≡ some pre
      → Suits new.seq pre.here.seq (tcp_cont_seq pre)
  unfolding search_position tcp_cont_seq
  search-Suits pre e = elim (Bool-cases (leb first.nxt_seq new.seq)) [
    | inl passed ↦ later (rw passed at e) (ground arith)
    | inr found ↦
        subst (λ (p : Cursor). Suits new.seq p.here.seq (cont_from p.before p.here p.after))
          (Option.some-injective (cursor [] first rest) pre (rw found at e))
          (first-Suits new.seq first rest ordered behind (ground arith))
  ]
    where
      later :
          search_from new.seq [] first rest ≡ some pre
          → first.nxt_seq ≤ new.seq
          → Suits new.seq pre.here.seq (cont_from pre.before pre.here pre.after)
      later q h =
          let (t, ts, after, hi, lo) = search_from-Suits new.seq [] first rest pre q h in
          let same = whole-search_position new.seq first rest e in
          rw after (
            run-Suits new.seq pre.before pre.here t ts
              (rw after at (IsOrdered-part pre.before pre.here pre.after (rw same ordered)))
              (rw after at (IsClear-part new.seq pre.before pre.here pre.after (rw same clear))) lo
              hi)

  IsOrdered-search :
      IsOrdered (place_search (first ∷ rest) last (search_position new.seq first rest) new).list
  unfolding place_search
  IsOrdered-search = elim (Option-cases (search_position new.seq first rest)) [
    | inl none_found ↦ rw none_found (end_case none_found)
    | inr (pre, found) ↦ rw found (
        IsOrdered-found pre (whole-search_position new.seq first rest found)
          (search-Suits pre found))
  ]
    where
      end_case : search_position new.seq first rest ≡ none → IsOrdered (first ∷ (rest ++ new ∷ []))
      end_case e =
          let (passed, none_left) = search_position-none new.seq first rest e in
          search_from-end new.seq [] first rest new none_left passed refl segment ordered

  IsOrdered-order_stream :
      LastIn (first ∷ rest) last
      → (p : Placed) × (order_stream (first ∷ rest) last new ≡ some p) × IsOrdered p.list
  unfolding order_stream
  IsOrdered-order_stream valid =
      let (l, found, same) = cursor_at-some first rest last valid in
      elim (Bool-cases (l.here.nxt_seq == new.seq)) [
        | inl direct ↦ (
          place (first ∷ rest) last l.here.seq (tcp_cont_seq l) new,
          rw (found, direct),
          IsOrdered-found l same (
              last-Suits new.seq l (IsOrdered-part l.before l.here l.after (rw same ordered))
                (ground arith)),
        )
        | inr other ↦ (
          place_search (first ∷ rest) last (search_position new.seq first rest) new,
          rw (found, other),
          IsOrdered-search,
        )
      ]

-- The first record begins at `x` or before.
abbrev pub Behind : ℕ → List Seq → Type 0
Behind x [] = Unit {0}
Behind x (s ∷ ss) = s.seq ≤ x

IsOrdered-any :
    (list : List Seq) (last : Option ℕ) (new : Seq)
    → IsOrdered list
    → IsSegment new
    → Behind new.seq list
    → IsClear new.seq list
    → LastIn list last
    → (p : Placed) × (order_stream list last new ≡ some p) × IsOrdered p.list
unfolding order_stream
IsOrdered-any [] last new h g b clear valid = (at_end [] new, refl, (g, tt, tt))
IsOrdered-any (first ∷ rest) last new h g b clear valid =
    IsOrdered-order_stream first rest last new h g b clear valid

-- A valid order whose list in a direction is ascending without overlaps stays so when a segment is
-- added to that direction, whatever it repeats or overlaps, provided that it does not begin before the
-- first record and does not begin inside a record that stands behind a gap.
pub IsOrdered-tcp_order :
    (o : Order) (new : Seq) (src : Bool)
    → IsValid o
    → IsOrdered (side src o)
    → IsSegment new
    → Behind new.seq (side src o)
    → IsClear new.seq (side src o)
    → (o' : Order) × (code : ℕ) × (tcp_order o new src ≡ some (o', code)) × IsOrdered (side src o')
IsOrdered-tcp_order o new src v h g b clear =
    let a = tcp_order-Advances o new src v in
    let (p, e, k) =
      IsOrdered-any (side src o) (last_of src o) new h g b clear (LastIn-side o src v) in
    (a.after, a.code, a.returns, rw (side-tcp_order o new src a.returns e) k)
