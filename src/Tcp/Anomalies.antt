-- ===== src/Tcp/Anomalies.antt =====
-- Segments that `tcp_order` does not put where they belong.
use mathlib.Core.List.{append_assoc, append-nil}
use monitoring_tool.Prelude.{
  ℕ, ◌^◌, ◌≤◌, ◌<◌, ◌≡◌, ◌≢◌, refl, sym, ap, ◌∙◌, Bool, true, false, Option, some, List, [], ◌∷◌,
  ◌++◌, arith, length, length-append, All-middle,
}
use monitoring_tool.Order.{Seq, Order}
use monitoring_tool.Tcp.{
  Cursor, cursor, cont_from, tcp_cont_seq, search_from, search_position, Placed, connect,
  append_after, place, place_search, order_stream, trim_back, tcp_order, cursor_from, cursor_at,
}
use monitoring_tool.Tcp.Cursors.{whole, whole-tcp_cont_seq, LastIn, cursor_at-some}
use monitoring_tool.Tcp.Advance.{IsValid, side, last_of, tcp_order-Advances}
use monitoring_tool.Tcp.Deliver.{side-tcp_order, LastIn-side}
use monitoring_tool.Tcp.Stream.{IsStream, cont_from-stream, IsStream-from, append_after-final}
use monitoring_tool.Tcp.Ordered.{IsSegment}

-- Every record of a stream that begins at `x` begins there or later.
stream_start :
    (x : ℕ) (b : List Seq) (s : Seq) (a : List Seq) → IsStream x (b ++ (s ∷ a)) → x ≤ s.seq
stream_start x [] s a h = omega arith
stream_start x (t ∷ b) s a h = omega (arith, stream_start t.nxt_seq b s a h.2)

module _ (first : Seq) (rest : List Seq) (last : Option ℕ) (new : Seq) (x : ℕ)
    (run : IsStream x (first ∷ rest)) (early : new.seq < first.seq) where
  place_early :
      (place (first ∷ rest) last first.seq (cont_from [] first rest) new).list
      ≡ (first ∷ rest) ++ new ∷ []
  unfolding place tcp_cont_seq
  place_early =
      let c = cont_from [] first rest in
      let (final, ends) = cont_from-stream [] first rest run.2 in
      ground (
        arith,
        append_after-final (first ∷ rest) last new c (whole-tcp_cont_seq (cursor [] first rest))
            final c.after final,
      )

  direct_never : (l : Cursor) → whole l ≡ first ∷ rest → l.here.nxt_seq ≢ new.seq
  direct_never l same e =
      let here = IsStream-from x l.before l.here l.after (rw same run) in
      let start = stream_start x l.before l.here l.after (rw same run) in
      absurd (omega (arith, here.0, start, run.0))

  place_search_early :
      (place_search (first ∷ rest) last (search_position new.seq first rest) new).list
      ≡ (first ∷ rest) ++ new ∷ []
  unfolding place_search search_position tcp_cont_seq
  place_search_early = ground (arith, place_early, run.1)

  order_stream_early :
      LastIn (first ∷ rest) last
      → (p : Placed) × (order_stream (first ∷ rest) last new ≡ some p)
        × (p.list ≡ (first ∷ rest) ++ new ∷ [])
  unfolding order_stream
  order_stream_early valid =
      let (l, found, same) = cursor_at-some first rest last valid in
      (
        place_search (first ∷ rest) last (search_position new.seq first rest) new,
        rw found (ground (arith, direct_never l same)),
        place_search_early,
      )

-- A segment that begins before the first record of a contiguous list is linked at the end of the list,
-- behind everything that it precedes.
pub tcp_order_early :
    (o : Order) (new : Seq) (src : Bool) (first : Seq) (rest : List Seq)
    → IsValid o
    → side src o ≡ first ∷ rest
    → IsStream first.seq (first ∷ rest)
    → new.seq < first.seq
    → (o' : Order) × (code : ℕ) × (tcp_order o new src ≡ some (o', code))
      × (side src o' ≡ first ∷ (rest ++ new ∷ []))
tcp_order_early o new src first rest v e run early =
    let a = tcp_order-Advances o new src v in
    let (p, q, l) =
      order_stream_early first rest (last_of src o) new first.seq run early
        (rw e at (LastIn-side o src v)) in
    let q' : order_stream (side src o) (last_of src o) new ≡ some p = rw e q in
    (a.after, a.code, a.returns, side-tcp_order o new src a.returns q' ∙ l)

module _ (s t : Seq) (last : Option ℕ) (new : Seq) (hs : IsSegment s) (ht : IsSegment t)
    (gap : s.nxt_seq < t.seq) (inside : t.seq < new.seq) (ends : new.seq < t.nxt_seq)
    (full : new.seq < new.nxt_seq) where
  place_reversed :
      (place (s ∷ t ∷ []) last s.seq (cursor [] s (t ∷ [])) new).list ≡ s ∷ trim_back t new ∷ t ∷ []
  unfolding place append_after connect
  place_reversed = ground arith

  search_reversed :
      (place_search (s ∷ t ∷ []) last (search_position new.seq s (t ∷ [])) new).list
      ≡ s ∷ trim_back t new ∷ t ∷ []
  unfolding place_search search_position search_from tcp_cont_seq cont_from
  search_reversed = ground (arith, place_reversed)

  order_stream_reversed :
      LastIn (s ∷ t ∷ []) last
      → (p : Placed) × (order_stream (s ∷ t ∷ []) last new ≡ some p)
        × (p.list ≡ s ∷ trim_back t new ∷ t ∷ [])
  unfolding order_stream
  order_stream_reversed valid =
      let (l, found, same) = cursor_at-some s (t ∷ []) last valid in
      (
        place_search (s ∷ t ∷ []) last (search_position new.seq s (t ∷ [])) new,
        rw found (ground (arith, other l same)),
        search_reversed,
      )
    where
      other : (l : Cursor) → whole l ≡ s ∷ t ∷ [] → l.here.nxt_seq ≢ new.seq
      other l same =
          All-middle (λ (r : Seq). r.nxt_seq ≢ new.seq) l.before l.here l.after
            (rw same (omega arith, (omega arith, tt)))

-- A segment that begins inside the second of two records with a gap between them is linked between the
-- two, and its end is moved back to the start of the second: the record that is linked ends before it
-- begins.
pub tcp_order_reversed :
    (o : Order) (new : Seq) (src : Bool) (s t : Seq)
    → IsValid o
    → side src o ≡ s ∷ t ∷ []
    → IsSegment s
    → IsSegment t
    → s.nxt_seq < t.seq
    → t.seq < new.seq
    → new.seq < t.nxt_seq
    → new.seq < new.nxt_seq
    → (o' : Order) × (code : ℕ) × (piece : Seq) × (tcp_order o new src ≡ some (o', code))
      × (side src o' ≡ s ∷ piece ∷ t ∷ [])
      × (piece.seq ≡ new.seq)
      × (piece.nxt_seq < piece.seq)
unfolding trim_back
tcp_order_reversed o new src s t v e hs ht gap inside ends full =
    let a = tcp_order-Advances o new src v in
    let (p, q, l) =
      order_stream_reversed s t (last_of src o) new hs ht gap inside ends full
        (rw e at (LastIn-side o src v)) in
    let q' : order_stream (side src o) (last_of src o) new ≡ some p = rw e q in
    (
      a.after,
      a.code,
      trim_back t new,
      a.returns,
      side-tcp_order o new src a.returns q' ∙ l,
      refl,
      inside,
    )

-- The cursor at the last position of a list.
cursor_from_last :
    (b front : List Seq) (l : Seq)
    → cursor_from b (front ++ l ∷ []) (length front) ≡ some (cursor (b ++ front) l [])
unfolding cursor_from
cursor_from_last b [] l = ap (λ (f : List Seq). some (cursor f l [])) (sym (append-nil b))
cursor_from_last b (s ∷ front) l =
    cursor_from_last (b ++ s ∷ []) front l
    ∙ ap (λ (f : List Seq). some (cursor f l [])) (append_assoc b (s ∷ []) front)

module _ (front : List Seq) (l new : Seq) (next : l.nxt_seq ≡ new.seq) (pos : 0 < new.seq)
    (word : new.seq < 2 ^ 32) where
  uncounted : Placed
  uncounted = record {
    list = front ++ (l ∷ new ∷ []);
    last = some (length front);
    counted = false;
    code = 0;
  }

  place-uncounted :
      (list : List Seq)
      → place list (some (length front)) l.seq (tcp_cont_seq (cursor front l [])) new ≡ uncounted
  unfolding place tcp_cont_seq cont_from append_after uncounted
  place-uncounted list = ground arith

  order_stream-uncounted :
      (list : List Seq)
      → list ≡ front ++ l ∷ []
      → order_stream list (some (length front)) new ≡ some uncounted
  unfolding order_stream cursor_at
  order_stream-uncounted [] e = absurd (ground (arith, ap length e, length-append front (l ∷ [])))
  order_stream-uncounted (s ∷ ss) e =
      rw (e, cursor_from_last [] front l) (ground (arith, place-uncounted (front ++ l ∷ [])))

-- A record that continues the one that was linked last, at the end of the list, is linked behind it,
-- but neither is `num` counted up nor does `last_src` move to it.
pub tcp_order_uncounted :
    (o : Order) (new l : Seq) (front : List Seq)
    → o.src ≡ front ++ l ∷ []
    → o.last_src ≡ some (length front)
    → l.nxt_seq ≡ new.seq
    → 0 < new.seq
    → new.seq < 2 ^ 32
    → tcp_order o new true ≡ some (record o { src = front ++ (l ∷ new ∷ []) }, 0)
unfolding tcp_order uncounted
tcp_order_uncounted o new l front e m next pos word =
    rw m (rw (order_stream-uncounted front l new next pos word o.src e) (rw (← m)))
