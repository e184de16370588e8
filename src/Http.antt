-- ===== src/Http.antt =====
-- The parser of HTTP messages, c-http-sniffer/src/protocols/http.cpp with include/protocols/http.hpp: the
-- methods, the first line of a request or a response, and the tests by which a packet is taken for the
-- head of a message. Texts are as in the module of text functions: `none` is a read outside of the text.
pub mod Request
pub mod Response
pub mod Methods
pub mod RequestLine
pub mod RoundTrip
pub mod Status
pub mod Inside
pub mod Tests
use monitoring_tool.Prelude.{
  ℕ, zero, suc, ◌+◌, ◌-◌, Bool, true, false, not, ◌&&◌, ◌||◌, Option, none, some, List, [], ◌∷◌,
  ltb, leb, ◌==◌, if◌then◌else◌, get_elem?, take, drop,
}
use monitoring_tool.Prelude.Partial.{◌>>=◌}
use monitoring_tool.Text.{codes, strncmp, memcpy, get_token_len, find_header_end}

pub data Version : Type 0 where
  http_ver_1_0 : Version
  http_ver_1_1 : Version
  http_ver_none : Version

-- What the constructor of a request pushes into `methodsName`.
abbrev pub methods_name : List (List ℕ)
methods_name =
    codes "NONE"
    ∷ codes "OPTIONS"
    ∷ codes "GET"
    ∷ codes "HEAD"
    ∷ codes "POST"
    ∷ codes "PUT"
    ∷ codes "DELETE"
    ∷ codes "TRACE"
    ∷ codes "CONNECT"
    ∷ codes "PATCH"
    ∷ codes "LINK"
    ∷ codes "UNLINK"
    ∷ codes "PROPFIND"
    ∷ codes "MKCOL"
    ∷ codes "COPY"
    ∷ codes "MOVE"
    ∷ codes "LOCK"
    ∷ codes "UNLOCK"
    ∷ codes "POLL"
    ∷ codes "BCOPY"
    ∷ codes "BMOVE"
    ∷ codes "SEARCH"
    ∷ codes "BDELETE"
    ∷ codes "PROPPATCH"
    ∷ codes "BPROPFIND"
    ∷ codes "BPROPPATCH"
    ∷ codes "LABEL"
    ∷ codes "MERGE"
    ∷ codes "REPORT"
    ∷ codes "UPDATE"
    ∷ codes "CHECKIN"
    ∷ codes "CHECKOUT"
    ∷ codes "UNCHECKOUT"
    ∷ codes "MKACTIVITY"
    ∷ codes "MKWORKSPACE"
    ∷ codes "VERSION_CONTROL"
    ∷ codes "BASELINE_CONTROL"
    ∷ codes "NOTIFY"
    ∷ codes "SUBSCRIBE"
    ∷ codes "UNSUBSCRIBE"
    ∷ codes "ICY"
    ∷ []

-- The test for a prefix of two bytes in front of the method.
unfoldable pub has_prefix : (linelen : ℕ) → List ℕ → Option Bool
unfolding strncmp
has_prefix linelen «data» =
    if leb 2 linelen
    then (do
      mandatory ← strncmp 2 «data» (codes "M-")
      if mandatory then some true else strncmp 2 «data» (13 ∷ 10 ∷ []))
    else some false

-- `index` of the space behind the method.
unfoldable pub space_at : (linelen : ℕ) → List ℕ → Option ℕ
space_at zero ptr = some 0
space_at (suc linelen) [] = none
space_at (suc linelen) (b ∷ ptr) =
    let rest = space_at linelen ptr in
    if b == 32 then some 0 else (do index ← rest; some (suc index))

-- The first of the names, the first of which is number `i`, that agrees in `index` bytes.
unfoldable pub first_name : (index : ℕ) → List ℕ → (i : ℕ) → (names : List (List ℕ)) → Option ℕ
unfolding strncmp
first_name index «data» i [] = some 0
first_name index «data» i (name ∷ names) =
    let rest = first_name index «data» (i + 1) names in
    do same ← strncmp index «data» name; if same then some i else rest

unfoldable pub parse_method : (linelen : ℕ) → List ℕ → Option ℕ
unfolding has_prefix space_at first_name
parse_method linelen «data» = do
  prefix ← has_prefix linelen «data»
  let method = if prefix then drop 2 «data» else «data»
  index ← space_at (if prefix then linelen - 2 else linelen) method
  first_name index method 0 methods_name

-- A token that a space follows: its length and the offset of the next token, or NULL.
unfoldable pub spaced_token : (n : ℕ) → List ℕ → Option (Option (ℕ × ℕ))
unfolding get_token_len
spaced_token n line = do
  (tokenlen, next_token) ← get_token_len n line
  if tokenlen == 0 then some none else (do
    b ← get_elem? line tokenlen
    some (if b == 32 then some (tokenlen, next_token) else none))

unfoldable pub uri_at : (n : ℕ) → List ℕ → Option (Option (List ℕ))
unfolding spaced_token memcpy
uri_at n line = do
  uri ← spaced_token n line
  elim uri [ none ↦ some none | some u ↦ (do copy ← memcpy u.0 line; some (some copy)) ]

unfoldable pub parse_uri : (len : ℕ) → List ℕ → Option (Option (List ℕ))
unfolding spaced_token uri_at
parse_uri len line = do
  method ← spaced_token len line
  elim method [ none ↦ some none | some m ↦ uri_at (len - m.1) (drop m.1 line) ]

-- The version of a response's first line.
unfoldable pub response_version : List ℕ → Option Version
unfolding strncmp
response_version line = do
  v10 ← strncmp 8 line (codes "HTTP/1.0")
  if v10 then some http_ver_1_0 else (do
    v11 ← strncmp 8 line (codes "HTTP/1.1")
    some (if v11 then http_ver_1_1 else http_ver_none))

unfoldable pub version_at : (n : ℕ) → List ℕ → Option Version
unfolding spaced_token response_version
version_at n line = do
  uri ← spaced_token n line
  elim uri [
    | none ↦ some http_ver_none
    | some u ↦ if n - u.1 == 0 then some http_ver_none else response_version (drop u.1 line)
  ]

unfoldable pub request_version : (len : ℕ) → List ℕ → Option Version
unfolding spaced_token version_at
request_version len line = do
  method ← spaced_token len line
  elim method [ none ↦ some http_ver_none | some m ↦ version_at (len - m.1) (drop m.1 line) ]

-- `isRequest` and `isResponse`: the offset of the head's end, or NULL.
unfoldable pub is_request : (datalen : ℕ) → List ℕ → Option (Option ℕ)
unfolding parse_method find_header_end
is_request datalen ptr = do
  method_code ← parse_method datalen ptr
  if method_code == 0
      then some none
      else (do (head_end, line_cnt) ← find_header_end datalen ptr; some head_end)

unfoldable pub is_response : (datalen : ℕ) → List ℕ → Option (Option ℕ)
unfolding response_version find_header_end
is_response datalen ptr = if ltb datalen 8 then some none else (do
  version ← response_version ptr
  elim version [
    | http_ver_none ↦ some none
    | _ ↦ (do (head_end, line_cnt) ← find_header_end datalen ptr; some head_end)
  ])
