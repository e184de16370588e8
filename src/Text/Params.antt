-- ===== src/Text/Params.antt =====
-- `header_param` of src/protocols/protocol.cpp.

use monitoring_tool.Prelude.{
  ℕ, zero, suc, ◌+◌, ◌-◌, ◌<◌, ◌≡◌, refl, ap, ◌∙◌, true, false, some, List, [], ◌∷◌, ◌++◌, arith,
  ltb, ◌==◌, length, All, Bool-cases, inl, inr,
}
use monitoring_tool.Text.{param_line, param_lines, header_param}
use monitoring_tool.Text.Lines.{
  IsLine, render, lines_length, get_elem?-end, drop-line, find_line_end-line,
}
use monitoring_tool.Text.Values.{
  IsName, starts, field_value, same_case-line, starts-length, param_value-line,
}

param_line-line :
    (l param rest : List ℕ) (hend : ℕ)
    → IsName param
    → suc (length l) < hend
    → param_line param hend (suc (length l)) (length l) (l ++ (13 ∷ rest)) ≡ some (starts l param)
unfolding param_line
param_line-line l param rest hend h bound =
    let apart : suc (length l) == hend ≡ false = ground arith in
    rw (apart, get_elem?-end l 13 rest) (same_case-line l param rest h)

param_lines-render :
    (param : List ℕ) (lines : List (List ℕ)) (rest : List ℕ) (fuel : ℕ)
    → IsName param
    → All IsLine lines
    → lines_length lines + 1 < fuel
    → param_lines fuel param (lines_length lines + 1) (render lines rest)
      ≡ some (field_value param lines)
unfolding param_lines
param_lines-render param lines rest zero name h enough = absurd (omega arith)
param_lines-render param [] rest (suc fuel) name h enough = refl
param_lines-render param (l ∷ lines) rest (suc fuel) name h enough =
    let hend = lines_length (l ∷ lines) + 1 in
    let less : hend - (suc (length l) + 1) ≡ lines_length lines + 1 = omega arith in
    let more : ltb (suc (length l)) hend ≡ true = ground arith in
    let behind = param_lines-render param lines rest fuel name h.1 (omega arith) in
    elim (Bool-cases (starts l param)) [
      | inl found ↦
          rw
            (
              find_line_end-line l (render lines rest) hend h.0 (omega arith),
              param_line-line l param (10 ∷ render lines rest) hend name (omega arith),
              found,
              param_value-line l param (render lines rest) h.0 (starts-length l param found),
            )
            refl
      | inr other ↦
          rw
            (
              find_line_end-line l (render lines rest) hend h.0 (omega arith),
              param_line-line l param (10 ∷ render lines rest) hend name (omega arith),
              other,
              more,
            )
            (ap (λ (q : List ℕ). param_lines fuel param (hend - (suc (length l) + 1)) q)
                (drop-line l (render lines rest))
              ∙ ap (λ (m : ℕ). param_lines fuel param m (render lines rest)) less
              ∙ behind)
    ]

-- On a header of lines, each with CR and LF, that an empty line ends, `header_param` always comes back.
-- It answers the value of the first line that starts with the name, in letters of either case: what
-- stands behind the name and the blanks after it, or the CR where nothing does. Without such a line it
-- answers NULL.
pub header_param-render :
    (param : List ℕ) (lines : List (List ℕ)) (rest : List ℕ)
    → IsName param
    → All IsLine lines
    → header_param param (lines_length lines + 1) (render lines rest)
      ≡ some (field_value param lines)
unfolding header_param
header_param-render param lines rest name h =
    param_lines-render param lines rest (suc (lines_length lines + 1)) name h (omega arith)
