-- ===== src/Text/HeaderEnd.antt =====
-- `find_header_end` of src/protocols/protocol.cpp.

use mathlib.Core.Option
use monitoring_tool.Prelude.{
  ℕ, zero, suc, ◌+◌, ◌-◌, ◌≤◌, ◌<◌, ◌≡◌, ◌⊎◌, inl, inr, refl, ap, ◌∙◌, Option, none, some, List, [],
  ◌∷◌, arith, false, ltb, ◌==◌, if◌then◌else◌, length, length-drop, drop, All, Bool-cases,
}
use monitoring_tool.Text.{memchr, header_lines, find_header_end}
use monitoring_tool.Text.Lines.{IsLine, render, lines_length, memchr-line, drop-line}

-- A line behind the first that is not empty.
abbrev pub IsField : List ℕ → Type 0
IsField l = IsLine l × (1 ≤ length l)

header_lines-render :
    (lines : List (List ℕ)) (rest : List ℕ) (fuel n at line_cnt : ℕ)
    → All IsField lines
    → lines_length lines + 2 ≤ n
    → n < fuel
    → header_lines fuel n at line_cnt (render lines rest)
      ≡ some (some (at + lines_length lines + 1), line_cnt + length lines)
unfolding header_lines
header_lines-render lines rest zero n at line_cnt h bound enough = absurd (omega arith)
header_lines-render [] rest (suc fuel) n at line_cnt h bound enough =
    rw (memchr-line [] rest n tt (omega arith)) (ground arith)
header_lines-render (l ∷ lines) rest (suc fuel) n at line_cnt h bound enough =
    let next =
      header_lines-render lines rest fuel (n - (suc (length l) + 1)) (at + suc (length l) + 1)
        (line_cnt + 1) h.1 (omega arith) (omega arith) in
    rw (memchr-line l (render lines rest) n h.0.0 (omega arith), drop-line l (render lines rest))
      (ground (arith, next, h.0.1))

-- On a text that starts with a line, any number of lines that are not empty, each with CR and LF, and an
-- empty line, of which the buffer holds all, `find_header_end` answers the line feed of the empty line,
-- and counts the lines in front of it.
pub find_header_end-render :
    (l : List ℕ) (lines : List (List ℕ)) (rest : List ℕ) (n : ℕ)
    → IsLine l
    → All IsField lines
    → lines_length (l ∷ lines) + 2 ≤ n
    → find_header_end n (render (l ∷ lines) rest)
      ≡ some (some (lines_length (l ∷ lines) + 1), length (l ∷ lines))
unfolding find_header_end
find_header_end-render l lines rest n first h bound =
    let k = suc (length l) + 1 in
    let end = header_lines-render lines rest (suc n) (n - k) k 1 h (omega arith) (omega arith) in
    rw (memchr-line l (render lines rest) n first (omega arith)) (
      ap (λ (q : List ℕ). header_lines (suc n) (n - k) k 1 q) (drop-line l (render lines rest))
      ∙ end
      ∙ ground arith)

-- A line feed with at most one byte between it and the one before, where `since` bytes stand between
-- the text and the line feed before.
pub blank_line : (since n : ℕ) → List ℕ → Option ℕ
blank_line since zero p = none
blank_line since (suc n) [] = none
blank_line since (suc n) (b ∷ p) =
    if b == 10
    then if ltb since 2 then some 0 else Option.map suc (blank_line 0 n p)
    else Option.map suc (blank_line (suc since) n p)

shift-suc : (o : Option ℕ) → Option.map suc o ≡ Option.map (λ (j : ℕ). 1 + j) o
shift-suc none = refl
shift-suc (some x) = ap some (omega arith)

shift-if :
    (since i : ℕ) (o : Option ℕ)
    → Option.map suc (if ltb (suc since + i) 2 then some i else Option.map (λ (j : ℕ). suc i + j) o)
      ≡ (if ltb (since + suc i) 2 then some (suc i) else Option.map (λ (j : ℕ). suc (suc i) + j) o)
shift-if since i none = ground arith
shift-if since i (some x) = ground arith

shift-at :
    (at i : ℕ) (o : Option ℕ)
    → Option.map (λ (j : ℕ). at + i + 1 + j) o
      ≡ Option.map (λ (j : ℕ). at + j) (Option.map (λ (j : ℕ). suc i + j) o)
shift-at at i none = refl
shift-at at i (some x) = ap some (omega arith)

-- The search for a line feed, next to the reference.
memchr-blank_line :
    (n : ℕ) (p : List ℕ)
    → n ≤ length p
    → ((memchr 10 n p ≡ some none) × ((since : ℕ) → blank_line since n p ≡ none))
      ⊎ ((i : ℕ) × (memchr 10 n p ≡ some (some i))
          × (i < n)
          × ((since : ℕ)
              → blank_line since n p ≡ (
                  if ltb (since + i) 2
                  then some i
                  else Option.map
                      (λ (j : ℕ). suc i + j)
                      (blank_line 0 (n - (suc i)) (drop (suc i) p)))))
unfolding memchr blank_line
memchr-blank_line zero p h = inl (refl, λ since. refl)
memchr-blank_line (suc n) [] h = absurd (omega arith)
memchr-blank_line (suc n) (b ∷ p) h = elim (Bool-cases (b == 10)) [
  | inl here ↦ inr (
    0,
    rw here refl,
    omega arith,
    λ since. rw here (
        let behind = shift-suc (blank_line 0 n p) in
        ground (arith, behind, ap (λ (m : ℕ). blank_line 0 m p) {x = suc n - 1} {y = n})),
  )
  | inr other ↦ elim (memchr-blank_line n p (omega arith)) [
    | inl (absent, blank) ↦
        inl (rw (other, absent) refl, λ since. rw (other, blank (suc since)) refl)
    | inr (i, found, within, blank) ↦ inr (
      suc i,
      rw (other, found) refl,
      omega arith,
      λ since.
          let less : suc n - suc (suc i) ≡ n - suc i = omega arith in
          rw (other, blank (suc since), less)
            (shift-if since i (blank_line 0 (n - suc i) (drop (suc i) p))),
    )
  ]
]

header_lines-blank_line :
    (fuel n at line_cnt : ℕ) (p : List ℕ)
    → n ≤ length p
    → n < fuel
    → (cnt : ℕ) × (header_lines fuel n at line_cnt p
        ≡ some (Option.map (λ (j : ℕ). at + j) (blank_line 0 n p), cnt))
unfolding header_lines
header_lines-blank_line zero n at line_cnt p h enough = absurd (omega arith)
header_lines-blank_line (suc fuel) n at line_cnt p h enough = elim (memchr-blank_line n p h) [
  | inl (absent, blank) ↦ (line_cnt, rw (absent, blank 0) refl)
  | inr (i, found, within, blank) ↦ elim (Bool-cases (ltb i 2)) [
    | inl close ↦ (line_cnt, rw (found, blank 0, close) (ground (arith, close)))
    | inr far ↦
        let (cnt, e) =
          header_lines-blank_line fuel (n - (i + 1)) (at + i + 1) (line_cnt + 1) (drop (i + 1) p)
            (omega (arith, length-drop (i + 1) p)) (omega arith) in
        let one : i + 1 ≡ suc i = omega arith in
        let none_here : ltb (0 + i) 2 ≡ false = ground arith in
        (
          cnt,
          rw (found, far, blank 0, none_here, e)
              (ap (λ (o : Option ℕ). some (o, cnt))
                (shift-at at i (blank_line 0 (n - (i + 1)) (drop (i + 1) p))
                  ∙ ap
                      (λ (m : ℕ).
                        Option.map (λ (j : ℕ). at + j)
                          (Option.map (λ (j : ℕ). suc i + j) (blank_line 0 (n - m) (drop m p))))
                      one)),
        )
  ]
]

-- Where the buffer holds all of its bytes, `find_header_end` always comes back, and it answers what one
-- pass over the bytes answers: the first line feed behind the first line that has at most one byte, of
-- whatever value, between itself and the line feed before it, and NULL if there is none.
pub find_header_end-blank_line :
    (n : ℕ) («data» : List ℕ)
    → n ≤ length «data»
    → (line_cnt : ℕ) × (find_header_end n «data» ≡ some (blank_line 2 n «data», line_cnt))
unfolding find_header_end
find_header_end-blank_line n «data» h = elim (memchr-blank_line n «data» h) [
  | inl (absent, blank) ↦ (0, rw (absent, blank 2) refl)
  | inr (i, found, within, blank) ↦
      let (cnt, e) =
        header_lines-blank_line (suc n) (n - (i + 1)) (i + 1) 1 (drop (i + 1) «data»)
          (omega (arith, length-drop (i + 1) «data»)) (omega arith) in
      let one : i + 1 ≡ suc i = omega arith in
      let none_here : ltb (2 + i) 2 ≡ false = ground arith in
      (
        cnt,
        rw (found, blank 2, none_here)
            (e
              ∙ ap
                  (λ (m : ℕ).
                    some
                      (Option.map (λ (j : ℕ). m + j) (blank_line 0 (n - m) (drop m «data»)), cnt))
                  one),
      )
]
