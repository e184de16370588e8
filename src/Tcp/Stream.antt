-- ===== src/Tcp/Stream.antt =====
-- A stream whose segments arrive in order: `tcp_order` keeps it as it came.
use mathlib.Core.List.{append_assoc}
use monitoring_tool.Prelude.{
  ℕ, ◌^◌, ◌≤◌, ◌<◌, ◌≡◌, refl, sym, ap, ◌∙◌, inl, inr, Option, none, some, List, [], ◌∷◌, ◌++◌,
  arith, ◌==◌, Bool-cases,
}
use monitoring_tool.Order.{Seq}
use monitoring_tool.Tcp.{
  Cursor, cont_from, tcp_cont_seq, search_from, search_position, Placed, link, append_after, place,
  place_search, order_stream,
}
use monitoring_tool.Tcp.Cursors.{whole, whole-tcp_cont_seq, LastIn, cursor_at-some}

-- Segments that are not empty and follow one another without a gap, the first at `x`.
abbrev pub IsStream : ℕ → List Seq → Type 0
IsStream x [] = Unit {0}
IsStream x (s ∷ ss) = (s.seq ≡ x) × (s.seq < s.nxt_seq) × IsStream s.nxt_seq ss

-- The number behind the last segment.
abbrev pub end_of : ℕ → List Seq → ℕ
end_of x [] = x
end_of x (s ∷ ss) = end_of s.nxt_seq ss

pub end_of-le : (x : ℕ) (ss : List Seq) → IsStream x ss → x ≤ end_of x ss
end_of-le x [] h = omega arith
end_of-le x (s ∷ ss) h = omega (arith, end_of-le s.nxt_seq ss h.2)

-- From any record of a stream the contiguous run goes on to its end.
pub cont_from-stream :
    (b : List Seq) (s : Seq) (a : List Seq)
    → IsStream s.nxt_seq a
    → ((cont_from b s a).after ≡ []) × ((cont_from b s a).here.nxt_seq ≡ end_of s.nxt_seq a)
unfolding cont_from
cont_from-stream b s [] h = (refl, refl)
cont_from-stream b s (t ∷ ts) h = ground (arith, cont_from-stream (b ++ s ∷ []) t ts h.2)

-- The search passes everything that ends at `x` or before.
search_from-stream :
    (x : ℕ) (b : List Seq) (pre : Seq) (rest : List Seq)
    → IsStream pre.nxt_seq rest
    → end_of pre.nxt_seq rest ≤ x
    → search_from x b pre rest ≡ none
unfolding search_from
search_from-stream x b pre [] h e = refl
search_from-stream x b pre (cp ∷ rest) h e =
    ground
      (arith, end_of-le cp.nxt_seq rest h.2, search_from-stream x (b ++ pre ∷ []) cp rest h.2 e)

-- The part of a stream from a record on.
pub IsStream-from :
    (x : ℕ) (b : List Seq) (s : Seq) (a : List Seq)
    → IsStream x (b ++ (s ∷ a))
    → (s.seq < s.nxt_seq) × IsStream s.nxt_seq a × (end_of x (b ++ (s ∷ a)) ≡ end_of s.nxt_seq a)
IsStream-from x [] s a h = (h.1, h.2, refl)
IsStream-from x (t ∷ b) s a h = IsStream-from t.nxt_seq b s a h.2

-- At the end of the run the next segment does not overlap, and is linked last.
module _ (list : List Seq) (last : Option ℕ) (new : Seq) (c : Cursor) (same : whole c ≡ list)
    (final : c.after ≡ []) where
  pub link-final : link c new ≡ list ++ new ∷ []
  link-final =
      ap (λ (a : List Seq). c.before ++ (c.here ∷ new ∷ a)) final
      ∙ sym (append_assoc c.before (c.here ∷ []) (new ∷ []))
      ∙ ap (λ (l : List Seq). l ++ new ∷ [])
          (ap (λ (a : List Seq). c.before ++ (c.here ∷ a)) (sym final) ∙ same)

  pub append_after-final :
      (a : List Seq) → a ≡ [] → (append_after last c a new).list ≡ list ++ new ∷ []
  unfolding append_after
  append_after-final [] e = link-final
  append_after-final (s ∷ a) e = cc

  place-final :
      (fr : ℕ)
      → c.here.nxt_seq ≡ new.seq
      → 0 < new.seq
      → new.seq < 2 ^ 32
      → (place list last fr c new).list ≡ list ++ new ∷ []
  unfolding place
  place-final fr next pos word = ground (arith, append_after-final c.after final)

-- One more segment of the stream.
module _ (first : Seq) (rest : List Seq) (last : Option ℕ) (new : Seq) (x : ℕ)
    (run : IsStream x (first ∷ rest)) (next : end_of first.nxt_seq rest ≡ new.seq)
    (word : new.seq < 2 ^ 32) where
  place-run :
      (l : Cursor)
      → whole l ≡ first ∷ rest
      → (place (first ∷ rest) last l.here.seq (tcp_cont_seq l) new).list
        ≡ (first ∷ rest) ++ new ∷ []
  unfolding tcp_cont_seq
  place-run l same =
      let here = IsStream-from x l.before l.here l.after (rw same run) in
      let (final, ends) = cont_from-stream l.before l.here l.after here.1 in
      place-final (first ∷ rest) last new (tcp_cont_seq l) (whole-tcp_cont_seq l ∙ same) final
        l.here.seq (ends ∙ sym here.2 ∙ ap (end_of x) same ∙ next)
        (omega (arith, end_of-le first.nxt_seq rest run.2)) word

  place_search-run :
      (place_search (first ∷ rest) last (search_position new.seq first rest) new).list
      ≡ (first ∷ rest) ++ new ∷ []
  unfolding place_search search_position
  place_search-run = ground (
    arith,
    end_of-le first.nxt_seq rest run.2,
    search_from-stream new.seq [] first rest run.2 (omega arith),
  )

  pub order_stream-run :
      LastIn (first ∷ rest) last
      → (p : Placed) × (order_stream (first ∷ rest) last new ≡ some p)
        × (p.list ≡ (first ∷ rest) ++ new ∷ [])
  unfolding order_stream
  order_stream-run valid =
      let (l, found, same) = cursor_at-some first rest last valid in
      elim (Bool-cases (l.here.nxt_seq == new.seq)) [
        | inl direct ↦ (
          place (first ∷ rest) last l.here.seq (tcp_cont_seq l) new,
          rw (found, direct),
          place-run l same,
        )
        | inr other ↦ (
          place_search (first ∷ rest) last (search_position new.seq first rest) new,
          rw (found, other),
          place_search-run,
        )
      ]
