-- ===== src/Tcp/Ordered.antt =====
-- Ascending lists of segments that do not overlap, and what `place` does to them where the cursor suits
-- the new record.

use monitoring_tool.Prelude.{
  ℕ, suc, ◌+◌, ◌-◌, ◌%◌, ◌^◌, ◌≤◌, ◌<◌, ◌≡◌, ◌&&◌, refl, inl, inr, Option, List, [], ◌∷◌, ◌++◌,
  arith, leb, ◌==◌, Bool-cases,
}
use monitoring_tool.Order.{Seq}
use monitoring_tool.Tcp.{
  Cursor, cont_from, link, connect, overlap, append_after, place, trim_front, trim_back,
}
use monitoring_tool.Tcp.Cursors.{whole}

-- The next record, if there is one, begins at `x` or later.
abbrev pub Before : ℕ → List Seq → Type 0
Before x [] = Unit {0}
Before x (s ∷ ss) = x ≤ s.seq

-- A record that is not empty and does not wrap around.
abbrev pub IsSegment : Seq → Type 0
IsSegment s = (s.seq < s.nxt_seq) × (s.nxt_seq < 2 ^ 32)

-- Segments in ascending order that do not overlap.
abbrev pub IsOrdered : List Seq → Type 0
IsOrdered [] = Unit {0}
IsOrdered (s ∷ ss) = IsSegment s × Before s.nxt_seq ss × IsOrdered ss

-- `x` does not lie inside a record that stands behind a gap.
abbrev pub GapClear : ℕ → Seq → List Seq → Type 0
GapClear x s [] = Unit {0}
GapClear x s (t ∷ ts) = s.nxt_seq < t.seq → t.seq ≤ x → t.nxt_seq ≤ x

abbrev pub IsClear : ℕ → List Seq → Type 0
IsClear x [] = Unit {0}
IsClear x (s ∷ ss) = GapClear x s ss × IsClear x ss

-- Parts of an ordered list, and a segment put between two of its records.
pub IsOrdered-part :
    (b : List Seq) (s : Seq) (a : List Seq) → IsOrdered (b ++ (s ∷ a)) → IsOrdered (s ∷ a)
IsOrdered-part [] s a h = h
IsOrdered-part (t ∷ b) s a h = IsOrdered-part b s a h.2

pub IsClear-part :
    (x : ℕ) (b : List Seq) (s : Seq) (a : List Seq) → IsClear x (b ++ (s ∷ a)) → GapClear x s a
IsClear-part x [] s a h = h.0
IsClear-part x (t ∷ b) s a h = IsClear-part x b s a h.1

Before-insert :
    (x : ℕ) (b : List Seq) (s : Seq) (a more : List Seq)
    → Before x (b ++ (s ∷ a))
    → Before x (b ++ (s ∷ more))
Before-insert x [] s a more h = h
Before-insert x (t ∷ b) s a more h = h

IsOrdered-insert :
    (b : List Seq) (s : Seq) (a : List Seq) (piece : Seq)
    → IsOrdered (b ++ (s ∷ a))
    → IsSegment piece
    → s.nxt_seq ≤ piece.seq
    → Before piece.nxt_seq a
    → IsOrdered (b ++ (s ∷ piece ∷ a))
IsOrdered-insert [] s a piece h g lo hi = (h.0, lo, (g, hi, h.2))
IsOrdered-insert (t ∷ b) s a piece h g lo hi =
    (h.0, Before-insert t.nxt_seq b s a (piece ∷ a) h.1, IsOrdered-insert b s a piece h.2 g lo hi)

-- The run from a record of an ordered list ends before a gap, and does not go back.
pub cont_from-gap :
    (b : List Seq) (s : Seq) (a : List Seq)
    → IsOrdered (s ∷ a)
    → Before (suc (cont_from b s a).here.nxt_seq) (cont_from b s a).after
      × (s.nxt_seq ≤ (cont_from b s a).here.nxt_seq)
unfolding cont_from
cont_from-gap b s [] h = (tt, omega arith)
cont_from-gap b s (t ∷ ts) h = elim (Bool-cases (s.nxt_seq == t.seq)) [
  | inl joined ↦
      rw joined (let (gap, up) = cont_from-gap (b ++ s ∷ []) t ts h.2 in (gap, ground arith))
  | inr gap ↦ rw gap (ground arith, omega arith)
]

-- What is known of a cursor behind which `new` is to be placed.
pub record Suits (x fr : ℕ) (c : Cursor) : Type 0 where
  pub from : fr ≤ x
  pub gap : Before (suc c.here.nxt_seq) c.after
  pub room : c.here.nxt_seq ≤ x → Before (suc x) c.after

module _ (list : List Seq) (last : Option ℕ) (new : Seq) (c : Cursor) (same : whole c ≡ list)
    (ordered : IsOrdered list) (segment : IsSegment new) where
  IsOrdered-here : IsSegment c.here
  IsOrdered-here = (IsOrdered-part c.before c.here c.after (rw same ordered)).0

  IsOrdered-link :
      (piece : Seq)
      → IsSegment piece
      → c.here.nxt_seq ≤ piece.seq
      → Before piece.nxt_seq c.after
      → IsOrdered (link c piece)
  IsOrdered-link piece = IsOrdered-insert c.before c.here c.after piece (rw same ordered)

  IsOrdered-connect :
      (aft : Seq) (a : List Seq) (piece : Seq)
      → c.after ≡ aft ∷ a
      → IsSegment piece
      → c.here.nxt_seq ≤ piece.seq
      → piece.seq < aft.seq
      → IsOrdered (connect c aft piece).list
  unfolding connect trim_back
  IsOrdered-connect aft a piece e g lo hi = elim (Bool-cases (leb piece.nxt_seq aft.seq)) [
    | inl fits ↦ rw fits (IsOrdered-link piece g lo (rw e (ground arith)))
    | inr reaches ↦
        rw reaches (IsOrdered-link (trim_back aft piece) (ground arith) lo (rw e (omega arith)))
  ]

  -- A record cut off in front begins where the run ends.
  IsOrdered-overlap :
      (a : List Seq)
      → c.after ≡ a
      → (piece : Seq) → IsSegment piece
      → piece.seq ≡ c.here.nxt_seq
      → Before (suc c.here.nxt_seq) a
      → IsOrdered (overlap c a piece).list
  unfolding overlap
  IsOrdered-overlap [] e piece g next gap = IsOrdered-link piece g (omega arith) (rw e tt)
  IsOrdered-overlap (aft ∷ a) e piece g next gap =
      IsOrdered-connect aft a piece e g (omega arith) (omega arith)

  IsOrdered-append_after :
      (a : List Seq)
      → c.after ≡ a
      → c.here.nxt_seq ≤ new.seq
      → Before (suc new.seq) a
      → IsOrdered (append_after last c a new).list
  unfolding append_after
  IsOrdered-append_after [] e lo room = IsOrdered-link new segment lo (rw e tt)
  IsOrdered-append_after (aft ∷ a) e lo room = IsOrdered-connect aft a new e segment lo room

  pub IsOrdered-place : (fr : ℕ) → Suits new.seq fr c → IsOrdered (place list last fr c new).list
  unfolding place
  IsOrdered-place fr suits =
      let bk = (c.here.nxt_seq + 2 ^ 32 - 1) % 2 ^ 32 in
      elim (Bool-cases (leb fr new.seq && leb new.seq bk)) [
        | inr apart ↦
            let lo : c.here.nxt_seq ≤ new.seq = ground (arith, suits.from, IsOrdered-here) in
            rw apart (IsOrdered-append_after c.after refl lo (suits.room lo))
        | inl inside ↦ elim (Bool-cases (leb ((new.nxt_seq + 2 ^ 32 - 1) % 2 ^ 32) bk)) [
          | inl old ↦ rw (inside, old) ordered
          | inr more ↦
              rw (inside, more)
                (IsOrdered-overlap c.after refl (trim_front bk new)
                  (unfold trim_front in ground (arith, IsOrdered-here))
                  (unfold trim_front in omega (arith, IsOrdered-here)) suits.gap)
        ]
      ]
