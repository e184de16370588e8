-- ===== src/Tcp/Insert.antt =====
-- Every call of `tcp_order` either refuses a retransmission or links one new record into the list of
-- its direction, and changes nothing else.
use mathlib.Core.List.{append_assoc, append-nil}
use monitoring_tool.Prelude.{
  ℕ, ◌&&◌, suc, ◌+◌, ◌-◌, ◌%◌, ◌^◌, ◌<◌, ◌≡◌, refl, sym, ap, ◌∙◌, false, inl, inr, Option, none,
  some, List, [], ◌∷◌, ◌++◌, arith, leb, ◌==◌, length, length-append, Bool-cases, Option-cases,
}
use monitoring_tool.Order.{Seq}
use monitoring_tool.Tcp.{
  Cursor, tcp_cont_seq, search_position, Placed, link, linked, connect, overlap, append_after,
  place, at_end, place_search, order_stream, trim_front, trim_back,
}
use monitoring_tool.Tcp.Cursors.{
  whole, whole-tcp_cont_seq, whole-search_position, LastIn, cursor_at-some,
}

-- A record cut at its ends: all but the packet and the two sequence numbers is kept.
abbrev pub IsPieceOf : Seq → Seq → Type 0
IsPieceOf new piece =
    piece ≡ record new { pkt = piece.pkt; seq = piece.seq; nxt_seq = piece.nxt_seq }

-- What a direction's list and `last` become.
pub data Outcome (list : List Seq) (last : Option ℕ) (new : Seq) (p : Placed) : Type 0 where
  resent : p.code ≡ 1 → p.list ≡ list → p.last ≡ last → p.counted ≡ false → Outcome list last new p
  inserted :
      (front back : List Seq) (piece : Seq)
      → p.code ≡ 0
      → list ≡ front ++ back
      → p.list ≡ front ++ (piece ∷ back)
      → IsPieceOf new piece
      → LastIn p.list p.last
      → Outcome list last new p

LastIn-of_lt : (list : List Seq) (n : ℕ) → n < length list → LastIn list (some n)
LastIn-of_lt [] n h = tt
LastIn-of_lt (s ∷ ss) n h = h

length-link : (c : Cursor) (new : Seq) → length (link c new) ≡ suc (length (whole c))
length-link c new = omega (
  arith,
  length-append c.before (c.here ∷ new ∷ c.after),
  length-append c.before (c.here ∷ c.after),
)

-- `last` stays valid where the list grows.
LastIn-grow :
    (list more : List Seq) (last : Option ℕ)
    → length list < length more
    → 0 < length list
    → LastIn list last
    → LastIn more last
LastIn-grow [] more last h pos l = absurd (omega arith)
LastIn-grow (s ∷ ss) [] last h pos l = tt
LastIn-grow (s ∷ ss) (m ∷ ms) none h pos l = l
LastIn-grow (s ∷ ss) (m ∷ ms) (some n) h pos l = omega arith

module _ (list : List Seq) (last : Option ℕ) (new : Seq) (c : Cursor) (same : whole c ≡ list) where
  splits : (piece : Seq) → link c piece ≡ (c.before ++ c.here ∷ []) ++ (piece ∷ c.after)
  splits piece = sym (append_assoc c.before (c.here ∷ []) (piece ∷ c.after))

  Outcome-linked : (piece : Seq) → IsPieceOf new piece → Outcome list last new (linked c piece)
  Outcome-linked piece h =
      Outcome.inserted (c.before ++ c.here ∷ []) c.after piece refl
        (sym same ∙ sym (append_assoc c.before (c.here ∷ []) c.after)) (splits piece) h
        (LastIn-of_lt (link c piece) (length c.before + 1)
          (omega (arith, length-append c.before (c.here ∷ piece ∷ c.after))))

  Outcome-connect :
      (aft piece : Seq) → IsPieceOf new piece → Outcome list last new (connect c aft piece)
  unfolding connect trim_back
  Outcome-connect aft piece h = elim (Bool-cases (leb piece.nxt_seq aft.seq)) [
    | inl whole_piece ↦ rw whole_piece (Outcome-linked piece h)
    | inr overlapping ↦ rw overlapping (Outcome-linked (trim_back aft piece) (ground arith))
  ]

  Outcome-overlap :
      (a : List Seq) (piece : Seq) → IsPieceOf new piece → Outcome list last new (overlap c a piece)
  unfolding overlap
  Outcome-overlap [] piece h = uncounted (Outcome-linked piece h)
    where
      uncounted :
          Outcome list last new (linked c piece)
          → Outcome list last new (record (linked c piece) { counted = false })
      uncounted (Outcome.resent e _ _ _) = absurd (omega arith)
      uncounted (Outcome.inserted f b q e s l k n) = Outcome.inserted f b q e s l k n
  Outcome-overlap (aft ∷ a) piece h = Outcome-connect aft piece h

  Outcome-append_after :
      (a : List Seq) → LastIn list last → Outcome list last new (append_after last c a new)
  unfolding append_after
  Outcome-append_after [] valid =
      Outcome.inserted (c.before ++ c.here ∷ []) c.after new refl
        (sym same ∙ sym (append_assoc c.before (c.here ∷ []) c.after)) (splits new) refl
        (LastIn-grow list (link c new) last (omega (arith, length-link c new, ap length same))
          (omega (arith, length-append c.before (c.here ∷ c.after), ap length same)) valid)
  Outcome-append_after (aft ∷ a) valid = Outcome-connect aft new refl

  Outcome-place : (fr : ℕ) → LastIn list last → Outcome list last new (place list last fr c new)
  unfolding place trim_front
  Outcome-place fr valid =
      let bk = (c.here.nxt_seq + 2 ^ 32 - 1) % 2 ^ 32 in
      elim (Bool-cases (leb fr new.seq && leb new.seq bk)) [
        | inr apart ↦ rw apart (Outcome-append_after c.after valid)
        | inl inside ↦ elim (Bool-cases (leb ((new.nxt_seq + 2 ^ 32 - 1) % 2 ^ 32) bk)) [
          | inl old ↦ rw (inside, old) (Outcome.resent refl refl refl refl)
          | inr more ↦ rw (inside, more) (Outcome-overlap c.after (trim_front bk new) refl)
        ]
      ]

Outcome-at_end :
    (list : List Seq) (last : Option ℕ) (new : Seq) → Outcome list last new (at_end list new)
Outcome-at_end list last new =
    Outcome.inserted list [] new refl (sym (append-nil list)) refl refl
      (LastIn-of_lt (list ++ new ∷ []) (length list) (omega (arith, length-append list (new ∷ []))))

-- The positions that the two ways of finding one lead to.
Outcome-search :
    (first : Seq) (rest : List Seq) (last : Option ℕ) (new : Seq)
    → LastIn (first ∷ rest) last
    → Outcome
        (first ∷ rest)
        last
        new
        (place_search (first ∷ rest) last (search_position new.seq first rest) new)
unfolding place_search
Outcome-search first rest last new valid =
    elim (Option-cases (search_position new.seq first rest)) [
      | inl e ↦ rw e (Outcome-at_end (first ∷ rest) last new)
      | inr (c, e) ↦ rw e (
          Outcome-place (first ∷ rest) last new (tcp_cont_seq c)
            (whole-tcp_cont_seq c ∙ whole-search_position new.seq first rest e) c.here.seq valid)
    ]

pub Outcome-order_stream :
    (list : List Seq) (last : Option ℕ) (new : Seq)
    → LastIn list last
    → (p : Placed) × (order_stream list last new ≡ some p) × Outcome list last new p
unfolding order_stream
Outcome-order_stream [] last new valid = (at_end [] new, refl, Outcome-at_end [] last new)
Outcome-order_stream (first ∷ rest) last new valid =
    let (c, found, same) = cursor_at-some first rest last valid in
    elim (Bool-cases (c.here.nxt_seq == new.seq)) [
      | inl next ↦ (
        place (first ∷ rest) last c.here.seq (tcp_cont_seq c) new,
        rw (found, next),
        Outcome-place (first ∷ rest) last new (tcp_cont_seq c) (whole-tcp_cont_seq c ∙ same)
            c.here.seq valid,
      )
      | inr other ↦ (
        place_search (first ∷ rest) last (search_position new.seq first rest) new,
        rw (found, other),
        Outcome-search first rest last new valid,
      )
    ]
