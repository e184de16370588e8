-- ===== src/Text.antt =====
-- The text functions of c-http-sniffer/src/protocols/protocol.cpp, "from xplico", on which the parsers of
-- HTTP and Memcached stand. A pointer is the list of the bytes that can be read from it on; a second
-- pointer into the same text is its offset from the first. `none` is a read outside of the text; a
-- function that may answer NULL answers an option inside.
pub mod Lines
pub mod HeaderEnd
pub mod Values
pub mod Params
pub mod Tokens
pub mod Tests
use Prim.Native.Char.{code}
use Prim.Native.String.{String}
use mathlib.Core.Option
use monitoring_tool.Prelude.{
  ℕ, zero, suc, ◌+◌, ◌-◌, Bool, true, false, not, ◌&&◌, ◌||◌, Option, none, some, List, [], ◌∷◌,
  ltb, leb, ◌==◌, if◌then◌else◌, get_elem?, drop, length,
}
use monitoring_tool.Prelude.Partial.{◌>>=◌}

abbrev pub codes : String → List ℕ
codes String.[] = []
codes (String.◌∷◌ c s) = code c ∷ codes s

-- `memchr(p, c, n)`.
unfoldable pub memchr : (c n : ℕ) → List ℕ → Option (Option ℕ)
memchr c zero p = some none
memchr c (suc n) [] = none
memchr c (suc n) (b ∷ p) =
    let rest = memchr c n p in
    if b == c then some (some 0) else (do found ← rest; some (Option.map suc found))

-- `tolower` in the C locale.
abbrev pub lower : ℕ → ℕ
lower c = if leb b'A' c && leb c b'Z' then c + 32 else c

-- `strncasecmp(p, text, strlen(text))` answers 0.
unfoldable pub same_case : List ℕ → (text : List ℕ) → Option Bool
same_case p [] = some true
same_case [] (t ∷ text) = none
same_case (c ∷ p) (t ∷ text) =
    let rest = same_case p text in if lower c == lower t then rest else some false

-- `strncmp(p, text, n)` answers 0, for a text that ends in a zero byte.
unfoldable pub strncmp : (n : ℕ) → List ℕ → (text : List ℕ) → Option Bool
strncmp zero p text = some true
strncmp (suc n) [] text = none
strncmp (suc n) (c ∷ p) [] = some (c == 0)
strncmp (suc n) (c ∷ p) (t ∷ text) =
    let rest = strncmp n p text in if c == t then rest else some false

unfoldable pub memcpy : (n : ℕ) → List ℕ → Option (List ℕ)
memcpy zero p = some []
memcpy (suc n) [] = none
memcpy (suc n) (c ∷ p) = do rest ← memcpy n p; some (c ∷ rest)

-- `find_line_end` behind its search: the line feed and the first byte of the line's end.
unfoldable pub line_end_at : (dataend : ℕ) → List ℕ → Option ℕ → Option (ℕ × ℕ)
line_end_at dataend «data» none = some (dataend, dataend)
line_end_at dataend «data» (some zero) = some (0, 0)
line_end_at dataend «data» (some (suc i)) = do
  before ← get_elem? «data» i
  if before == 13
      then some (suc i, i)
      else if ltb (suc i) (dataend - 1)
      then (do
        behind ← get_elem? «data» (suc i + 1)
        some ((if behind == 13 then suc i + 1 else suc i), suc i))
      else some (suc i, suc i)

-- The answer and `*eol`.
unfoldable pub find_line_end : (dataend : ℕ) → List ℕ → Option (ℕ × ℕ)
unfolding memchr line_end_at
find_line_end dataend «data» = do
  lineend ← memchr 10 (dataend + 1) «data»
  line_end_at dataend «data» lineend

-- The loop of `find_header_end`: `n` bytes are left from `lf`, which stands at an offset. The answer
-- and `*line_cnt`.
unfoldable pub header_lines : (fuel n at line_cnt : ℕ) → (lf : List ℕ) → Option (Option ℕ × ℕ)
unfolding memchr
header_lines zero n at line_cnt lf = none
header_lines (suc fuel) n at line_cnt lf = do
  nxtlf ← memchr 10 n lf
  elim nxtlf [
    | none ↦ some (none, line_cnt)
    | some i ↦
        let rest = header_lines fuel (n - (i + 1)) (at + i + 1) (line_cnt + 1) (drop (i + 1) lf) in
        if ltb i 2 then some (some (at + i), line_cnt) else rest
  ]

-- `n` is `dataend - data + 1`.
unfoldable pub find_header_end : (n : ℕ) → List ℕ → Option (Option ℕ × ℕ)
unfolding memchr header_lines
find_header_end n «data» = do
  lf ← memchr 10 n «data»
  elim lf [
    | none ↦ some (none, 0)
    | some i ↦ header_lines (suc n) (n - (i + 1)) (i + 1) 1 (drop (i + 1) «data»)
  ]

-- `while (*c == ' ' && c < lineend) c++`.
unfoldable pub skip_spaces : (c lineend : ℕ) → List ℕ → Option ℕ
skip_spaces c lineend [] = none
skip_spaces c lineend (b ∷ p) =
    let rest = skip_spaces (c + 1) lineend p in if b == 32 && ltb c lineend then rest else some c

-- The loop that moves `eol` to the last byte that is no CR or LF.
unfoldable pub move_eol : (eol c : ℕ) → List ℕ → Option ℕ
move_eol zero c line = do b ← get_elem? line 0; some 0
move_eol (suc eol) c line =
    let rest = move_eol eol c line in
    do
      b ← get_elem? line (suc eol)
      if (b == 13 || b == 10) && ltb c (suc eol) then rest else some (suc eol)

unfoldable pub param_value : (param_len lineend eol : ℕ) → (line : List ℕ) → Option (List ℕ)
unfolding skip_spaces move_eol memcpy
param_value param_len lineend eol line = do
  c ← skip_spaces param_len lineend (drop param_len line)
  last ← move_eol eol c line
  memcpy (last - c + 1) (drop c line)

-- One line of `header_param`, where `hend` stands at an offset from the line.
unfoldable pub param_line :
    (param : List ℕ) → (hend lineend eol : ℕ) → (line : List ℕ) → Option Bool
unfolding same_case
param_line param hend lineend eol line =
    if lineend == hend
    then some false
    else do b ← get_elem? line eol; if b == 13 || b == 10 then same_case line param else some false

-- The loop of `header_param`.
unfoldable pub param_lines :
    (fuel : ℕ) → (param : List ℕ) → (hend : ℕ) → List ℕ → Option (Option (List ℕ))
unfolding find_line_end param_line param_value
param_lines zero param hend line = none
param_lines (suc fuel) param hend line = do
  (lineend, eol) ← find_line_end hend line
  here ← param_line param hend lineend eol line
  let rest = param_lines fuel param (hend - (lineend + 1)) (drop (lineend + 1) line) in
      if here
      then Option.map some (param_value (length param) lineend eol line)
      else if ltb lineend hend
      then rest
      else some none

-- `hlen` is `hend + 1`.
unfoldable pub header_param : (param : List ℕ) → (hend : ℕ) → List ℕ → Option (Option (List ℕ))
unfolding param_lines
header_param param hend header = param_lines (suc hend) param hend header

-- `while (linep < lineend && ...) linep++`, up to a blank, a CR or an LF.
unfoldable pub token_end : (n : ℕ) → List ℕ → Option ℕ
token_end zero p = some 0
token_end (suc n) [] = none
token_end (suc n) (b ∷ p) =
    let rest = token_end n p in
    if b == 32 || b == 13 || b == 10 then some 0 else Option.map suc rest

unfoldable pub blanks_end : (n : ℕ) → List ℕ → Option ℕ
blanks_end zero p = some 0
blanks_end (suc n) [] = none
blanks_end (suc n) (b ∷ p) =
    let rest = blanks_end n p in if b == 32 then Option.map suc rest else some 0

-- The length of the token, and where the next one begins. `n` is `lineend - linep`.
unfoldable pub get_token_len : (n : ℕ) → List ℕ → Option (ℕ × ℕ)
unfolding token_end blanks_end
get_token_len n linep = do
  token_len ← token_end n linep
  blanks ← blanks_end (n - token_len) (drop token_len linep)
  some (token_len, token_len + blanks)
