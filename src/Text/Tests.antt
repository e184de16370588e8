-- ===== src/Text/Tests.antt =====
-- Small texts.
use monitoring_tool.Prelude.{ℕ, ◌+◌, ◌≡◌, refl, some, List, [], ◌∷◌, arith}
use monitoring_tool.Text.{codes, header_param, find_header_end}
use monitoring_tool.Text.Lines.{render, lines_length}
use monitoring_tool.Text.HeaderEnd.{find_header_end-blank_line, blank_line}
use monitoring_tool.Text.Params.{header_param-render}
use monitoring_tool.Text.Values.{field_value}

abbrev get : List ℕ
get = codes "GET / HTTP/1.1\r\nA: b\r\nHost:  example\r\n\r\nxx"

get_host : header_param (codes "host:") 38 get ≡ some (some (codes "example"))
unfolding header_param
get_host = refl

get_end : find_header_end 42 get ≡ some (some 39, 3)
unfolding find_header_end
get_end = refl

-- The value of a field without text is the CR of its line.
empty_host : header_param (codes "Host:") 8 (codes "Host:\r\n\r\n") ≡ some (some (13 ∷ []))
unfolding header_param
empty_host = refl

abbrev line : List ℕ
line = codes "A"

abbrev host : List ℕ
host = codes "Host: b"

find_header_end-blank_line_example :
    (line_cnt : ℕ) × (find_header_end 42 get ≡ some (blank_line 2 42 get, line_cnt))
find_header_end-blank_line_example = find_header_end-blank_line 42 get (omega arith)

header_param-render_example :
    header_param
      (codes "HOST:")
      (lines_length (line ∷ host ∷ []) + 1)
      (render (line ∷ host ∷ []) (codes "body"))
    ≡ some (field_value (codes "HOST:") (line ∷ host ∷ []))
header_param-render_example =
    header_param-render (codes "HOST:") (line ∷ host ∷ []) (codes "body") (ground arith)
      (ground arith, (ground arith, tt))
