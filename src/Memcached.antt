-- ===== src/Memcached.antt =====
-- The parser of Memcached messages, c-http-sniffer/src/protocols/memcached.cpp. Texts are as in the module
-- of text functions. The recognisers pass the length of the text where `find_line_end` takes a pointer
-- to its last byte, so the search for the line's end is not bounded by it, and of a length that is not 0
-- no line feed stands below that address.
pub mod Request
pub mod Response
pub mod Keys
pub mod Tests
use monitoring_tool.Prelude.{
  ℕ, zero, suc, ◌+◌, ◌-◌, Bool, true, false, not, ◌&&◌, ◌||◌, Option, none, some, List, [], ◌∷◌,
  ◌++◌, ltb, leb, ◌==◌, if◌then◌else◌, get_elem?, drop, length,
}
use monitoring_tool.Prelude.Partial.{◌>>=◌}
use monitoring_tool.Text.{codes, memchr, strncmp, memcpy, get_token_len, find_line_end, line_end_at}
use monitoring_tool.Http.{first_name}

-- What the constructor of a request pushes into `methodsName`.
abbrev pub commands : List (List ℕ)
commands =
    codes "none"
    ∷ codes "get"
    ∷ codes "set"
    ∷ codes "add"
    ∷ codes "replace"
    ∷ codes "append"
    ∷ codes "prepend"
    ∷ codes "delete"
    ∷ codes "flush_all"
    ∷ codes "quit"
    ∷ codes "incr"
    ∷ codes "decr"
    ∷ codes "touch"
    ∷ codes "gat"
    ∷ codes "gats"
    ∷ codes "slabs"
    ∷ codes "lru"
    ∷ codes "watch"
    ∷ codes "stats"
    ∷ codes "version"
    ∷ codes "misbehave"
    ∷ []

-- The values of the map `status`, in the order of its keys from 0 on.
abbrev pub replies : List (List ℕ)
replies =
    codes "VALUE"
    ∷ codes "OK"
    ∷ codes "END"
    ∷ codes "STORED"
    ∷ codes "NOT_STORED"
    ∷ codes "EXISTS"
    ∷ codes "NOT_FOUND"
    ∷ codes "ERROR"
    ∷ codes "CLIENT_ERROR"
    ∷ codes "SERVER_ERROR"
    ∷ codes "DELETED"
    ∷ codes "TOUCHED"
    ∷ codes "BUSY"
    ∷ codes "BADCLASS"
    ∷ codes "NOTFULL"
    ∷ codes "UNSAFE"
    ∷ codes "SAME"
    ∷ codes "STAT"
    ∷ codes "VERSION"
    ∷ codes "NONE"
    ∷ []

-- `index` of the space, or of the CR where one ends the word too.
unfoldable pub word_at : (cr : Bool) → (linelen : ℕ) → List ℕ → Option ℕ
word_at cr zero ptr = some 0
word_at cr (suc linelen) [] = none
word_at cr (suc linelen) (b ∷ ptr) =
    let rest = word_at cr linelen ptr in
    if b == 32 || cr && b == 13 then some 0 else (do index ← rest; some (suc index))

unfoldable pub parse_command : (linelen : ℕ) → List ℕ → Option ℕ
unfolding word_at first_name
parse_command linelen «data» = do
  index ← word_at true linelen «data»
  first_name index «data» 0 commands

-- The first of the values that agrees in `index` bytes, and the last key without one.
unfoldable pub first_reply : (index : ℕ) → List ℕ → (i : ℕ) → List (List ℕ) → Option ℕ
unfolding strncmp
first_reply index line i [] = some 19
first_reply index line i (name ∷ names) =
    let rest = first_reply index line (i + 1) names in
    do same ← strncmp index line name; if same then some i else rest

unfoldable pub parse_reply : (len : ℕ) → List ℕ → Option ℕ
unfolding word_at first_reply
parse_reply len line = do index ← word_at false len line; first_reply index line 0 replies

-- `hasErrorStatus`: ERROR, CLIENT_ERROR, SERVER_ERROR and BADCLASS.
abbrev pub is_error_reply : ℕ → Bool
is_error_reply status_code =
    status_code == 7 || status_code == 8 || status_code == 9 || status_code == 13

-- `find_line_end(linesp, datalen, &eol)`.
unfoldable pub line_end : List ℕ → Option (ℕ × ℕ)
unfolding memchr line_end_at
line_end p = do lineend ← memchr 10 (length p + 1) p; line_end_at 0 p lineend

unfoldable pub is_request : List ℕ → Option (Option ℕ)
unfolding line_end parse_command
is_request ptr = do
  (head_end, eol) ← line_end ptr
  method_code ← parse_command (head_end + 1) ptr
  some (if method_code == 0 then none else some head_end)

unfoldable pub is_response : List ℕ → Option (Option ℕ)
unfolding line_end parse_reply
is_response ptr = do
  (head_end, eol) ← line_end ptr
  status_code ← parse_reply (head_end + 1) ptr
  some (if status_code == 19 then none else some head_end)

-- `sscanf` with `%u` finds a number.
unfoldable pub scans : List ℕ → Option Bool
scans [] = none
scans (c ∷ p) =
    let rest = scans p in
    if c == 32 || leb 9 c && leb c 13
    then rest
    else if c == b'+' || c == b'-'
    then (do d ← get_elem? p 0; some (leb b'0' d && leb d b'9'))
    else some (leb b'0' c && leb c b'9')

-- The byte behind a token that is not empty.
unfoldable pub byte_behind : (tokenlen : ℕ) → List ℕ → Option (Option ℕ)
byte_behind tokenlen line =
    if tokenlen == 0 then some none else (do b ← get_elem? line tokenlen; some (some b))

abbrev pub is_space : Option ℕ → Bool
is_space none = false
is_space (some b) = b == 32

abbrev pub is_space_or_cr : Option ℕ → Bool
is_space_or_cr none = false
is_space_or_cr (some b) = b == 32 || b == 13

-- The loop for `get`. `n` is `eoh - linesp`.
unfoldable pub get_keys : (fuel n : ℕ) → List ℕ → Option (List (List ℕ))
unfolding get_token_len byte_behind memcpy
get_keys zero n line = none
get_keys (suc fuel) n line = do
  (tokenlen, next_token) ← get_token_len n line
  behind ← byte_behind tokenlen line
  let rest = get_keys fuel (n - next_token) (drop next_token line) in
      if is_space behind
      then (do key ← memcpy tokenlen line; keys ← rest; some (key ∷ keys))
      else some []
