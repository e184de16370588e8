-- ===== src/Tcp/Cursors.antt =====
-- Cursors into a chain: every one that `tcp_order` computes points into the list it came from.
use mathlib.Core.List.{append_assoc}
use monitoring_tool.Prelude.{
  ℕ, zero, suc, ◌<◌, ◌≡◌, refl, ◌∙◌, Option, none, some, List, [], ◌∷◌, ◌++◌, arith, length,
}
use monitoring_tool.Order.{Seq}
use monitoring_tool.Tcp.{
  Cursor, cursor, cont_from, tcp_cont_seq, cursor_from, cursor_at, search_from, search_position,
}

-- The list that a cursor points into.
abbrev pub whole : Cursor → List Seq
whole c = c.before ++ (c.here ∷ c.after)

pub whole-cont_from :
    (b : List Seq) (s : Seq) (a : List Seq) → whole (cont_from b s a) ≡ b ++ (s ∷ a)
unfolding cont_from
whole-cont_from b s [] = refl
whole-cont_from b s (t ∷ ts) =
    ground (arith, whole-cont_from (b ++ s ∷ []) t ts, append_assoc b (s ∷ []) (t ∷ ts))

pub whole-tcp_cont_seq : (c : Cursor) → whole (tcp_cont_seq c) ≡ whole c
unfolding tcp_cont_seq
whole-tcp_cont_seq c = whole-cont_from c.before c.here c.after

pub whole-search_from :
    (x : ℕ) (b : List Seq) (pre : Seq) (rest : List Seq) {c : Cursor}
    → search_from x b pre rest ≡ some c
    → whole c ≡ b ++ (pre ∷ rest)
unfolding search_from
whole-search_from x b pre [] e = cc
whole-search_from x b pre (cp ∷ rest) {c} e = ground (
  arith,
  whole-search_from x (b ++ pre ∷ []) cp rest {c = c},
  append_assoc b (pre ∷ []) (cp ∷ rest),
)

pub whole-search_position :
    (x : ℕ) (first : Seq) (rest : List Seq) {c : Cursor}
    → search_position x first rest ≡ some c
    → whole c ≡ first ∷ rest
unfolding search_position
whole-search_position x first rest {c} e = ground (arith, whole-search_from x [] first rest {c = c})

pub whole-cursor_from :
    (b ss : List Seq) (n : ℕ) {c : Cursor} → cursor_from b ss n ≡ some c → whole c ≡ b ++ ss
unfolding cursor_from
whole-cursor_from b [] n e = cc
whole-cursor_from b (s ∷ ss) zero e = ground arith
whole-cursor_from b (s ∷ ss) (suc n) {c} e =
    whole-cursor_from (b ++ s ∷ []) ss n e ∙ append_assoc b (s ∷ []) ss

-- A position within the list has a cursor.
pub cursor_from-some :
    (b ss : List Seq) (n : ℕ) → n < length ss → (c : Cursor) × (cursor_from b ss n ≡ some c)
unfolding cursor_from
cursor_from-some b [] n h = absurd (omega arith)
cursor_from-some b (s ∷ ss) zero h = (cursor b s ss, refl)
cursor_from-some b (s ∷ ss) (suc n) h = cursor_from-some (b ++ s ∷ []) ss n (omega arith)

-- `plist_last` is not followed in an empty list, and otherwise points into the list.
abbrev pub LastIn : List Seq → Option ℕ → Type 0
LastIn [] last = Unit {0}
LastIn (s ∷ ss) none = ⊥
LastIn (s ∷ ss) (some n) = n < length (s ∷ ss)

pub cursor_at-some :
    (s : Seq) (ss : List Seq) (last : Option ℕ)
    → LastIn (s ∷ ss) last
    → (c : Cursor) × (cursor_at (s ∷ ss) last ≡ some c) × (whole c ≡ s ∷ ss)
unfolding cursor_at
cursor_at-some s ss none h = elim h [ ]
cursor_at-some s ss (some n) h =
    let (c, e) = cursor_from-some [] (s ∷ ss) n h in (c, e, whole-cursor_from [] (s ∷ ss) n e)
