-- ===== src/Text/Lines.antt =====
-- Lines that end in CR and LF, and how src/protocols/protocol.cpp finds their ends.
use native.Mathlib.Numerals.{add-one}
use monitoring_tool.Prelude.{
  ℕ, zero, suc, ◌+◌, ◌≤◌, ◌<◌, ◌≡◌, ◌≢◌, refl, some, List, [], ◌∷◌, ◌++◌, arith, length, get_elem?,
  drop, All,
}
use monitoring_tool.Text.{memchr, line_end_at, find_line_end}

-- A line without its end.
abbrev pub IsLine : List ℕ → Type 0
IsLine l = All (λ (c : ℕ). (c ≢ 13) × (c ≢ 10)) l

-- A header of lines, the empty line that ends it, and the text behind.
abbrev pub render : (lines : List (List ℕ)) → (rest : List ℕ) → List ℕ
render [] rest = 13 ∷ 10 ∷ rest
render (l ∷ lines) rest = l ++ (13 ∷ 10 ∷ render lines rest)

-- Its length, less the two bytes of the empty line.
abbrev pub lines_length : List (List ℕ) → ℕ
lines_length [] = 0
lines_length (l ∷ lines) = length l + 2 + lines_length lines

pub memchr-line :
    (l rest : List ℕ) (n : ℕ)
    → IsLine l
    → suc (length l) < n
    → memchr 10 n (l ++ (13 ∷ 10 ∷ rest)) ≡ some (some (suc (length l)))
unfolding memchr
memchr-line [] rest zero h bound = absurd (omega arith)
memchr-line [] rest (suc zero) h bound = absurd (omega arith)
memchr-line [] rest (suc (suc n)) h bound = refl
memchr-line (c ∷ l) rest zero h bound = absurd (omega arith)
memchr-line (c ∷ l) rest (suc n) h bound =
    rw (memchr-line l rest n h.1 (omega arith)) (ground (arith, h.0.1))

pub get_elem?-end :
    (l : List ℕ) (c : ℕ) (rest : List ℕ) → get_elem? (l ++ (c ∷ rest)) (length l) ≡ some c
get_elem?-end [] c rest = refl
get_elem?-end (x ∷ l) c rest = get_elem?-end l c rest

pub drop-line : (l rest : List ℕ) → drop (suc (length l) + 1) (l ++ (13 ∷ 10 ∷ rest)) ≡ rest
drop-line l rest = rw add-one (go l)
  where
    go : (l : List ℕ) → drop (suc (suc (length l))) (l ++ (13 ∷ 10 ∷ rest)) ≡ rest
    go [] = refl
    go (x ∷ l) = go l

pub find_line_end-line :
    (l rest : List ℕ) (dataend : ℕ)
    → IsLine l
    → suc (length l) ≤ dataend
    → find_line_end dataend (l ++ (13 ∷ 10 ∷ rest)) ≡ some (suc (length l), length l)
unfolding find_line_end line_end_at
find_line_end-line l rest dataend h bound =
    rw (memchr-line l rest (dataend + 1) h (omega arith), get_elem?-end l 13 (10 ∷ rest)) refl
