-- ===== src/Http/Response.antt =====
-- A response, `_http::Response` of src/protocols/http.cpp, as its constructors make it, its status code
-- and the test for an error. An `int` stands by its 32 bits. What `sscanf` stores for a number out of
-- range is not determined, and `none` here.
use monitoring_tool.Prelude.{
  ℕ, zero, suc, ◌+◌, ◌-◌, ◌*◌, ◌/◌, ◌%◌, ◌^◌, Bool, false, not, ◌&&◌, ◌||◌, Option, none, some,
  List, [], ◌∷◌, ltb, leb, ◌==◌, if◌then◌else◌, get_elem?, drop,
}
use monitoring_tool.Prelude.Partial.{◌>>=◌}
use monitoring_tool.Text.{codes, get_token_len, find_line_end, find_header_end, header_param}
use monitoring_tool.Http.{Version, spaced_token, response_version}

-- The keys of the map `status`, in its order.
abbrev pub status : List ℕ
status =
    0 ∷ 100 ∷ 101 ∷ 102 ∷ 199 ∷ 200 ∷ 201 ∷ 202 ∷ 203 ∷ 204 ∷ 205 ∷ 206 ∷ 207 ∷ 299 ∷ 300 ∷ 301
    ∷ 302 ∷ 303 ∷ 304 ∷ 305 ∷ 307 ∷ 399 ∷ 400 ∷ 401 ∷ 402 ∷ 403 ∷ 404 ∷ 405 ∷ 406 ∷ 407 ∷ 408 ∷ 409
    ∷ 410 ∷ 411 ∷ 412 ∷ 413 ∷ 414 ∷ 415 ∷ 416 ∷ 417 ∷ 422 ∷ 423 ∷ 424 ∷ 499 ∷ 500 ∷ 501 ∷ 502 ∷ 503
    ∷ 504 ∷ 505 ∷ 507 ∷ 599 ∷ []

-- The value of a digit, 16 for any other byte.
abbrev pub digit : ℕ → ℕ
digit c =
    if leb b'0' c && leb c b'9'
    then c - b'0'
    else if leb b'a' c && leb c b'f'
    then c - b'a' + 10
    else if leb b'A' c && leb c b'F'
    then c - b'A' + 10
    else 16

-- The digits behind a number that is read up to here, up to the first byte that is none.
unfoldable pub digits : (base acc : ℕ) → List ℕ → Option ℕ
digits base acc [] = none
digits base acc (c ∷ p) =
    let rest = digits base (acc * base + digit c) p in if ltb (digit c) base then rest else some acc

-- `sscanf(p, "%i", ...)` behind the white space and the sign: NULL stands for no number.
unfoldable pub scan_unsigned : List ℕ → Option (Option ℕ)
unfolding digits
scan_unsigned p = do
  c ← get_elem? p 0
  if not (ltb (digit c) 10)
      then some none
      else if not (c == b'0')
      then (do n ← digits 10 0 p; some (some n))
      else (do
        x ← get_elem? p 1
        if x == b'x' || x == b'X'
            then (do
              d ← get_elem? p 2
              n ← digits 16 0 (drop 2 p)
              some (if ltb (digit d) 16 then some n else none))
            else (do n ← digits 8 0 p; some (some n)))

-- An `int` of a sign and a size.
unfoldable pub to_int : (negative : Bool) → ℕ → Option ℕ
to_int negative n =
    if negative
    then if leb n (2 ^ 31) then some ((2 ^ 32 - n) % 2 ^ 32) else none
    else if ltb n (2 ^ 31)
    then some n
    else none

unfoldable pub scan_int : List ℕ → Option (Option ℕ)
unfolding scan_unsigned to_int
scan_int [] = none
scan_int (c ∷ p) =
    let rest = scan_int p in
    let sign = c == b'-' || c == b'+' in
    if c == 32 || leb 9 c && leb c 13 then rest else (do
      n ← scan_unsigned (if sign then p else c ∷ p)
      elim n [ none ↦ some none | some n ↦ (do val ← to_int (c == b'-') n; some (some val)) ])

-- The loop over the map.
abbrev pub status_code : (val : ℕ) → List ℕ → ℕ
status_code val [] = 0
status_code val (s ∷ rest) = if s == val then s else status_code val rest

unfoldable pub status_at : (n : ℕ) → List ℕ → Option ℕ
unfolding get_token_len scan_int
status_at n line = do
  (tokenlen, next_token) ← get_token_len n line
  if tokenlen == 0 then some 0 else (do
    b ← get_elem? line tokenlen
    if b == 32 || b == 13 || b == 10
        then (do
          scanned ← scan_int line
          some (elim scanned [ none ↦ 0 | some val ↦ status_code val status ]))
        else some 0)

unfoldable pub parse_status : (len : ℕ) → List ℕ → Option ℕ
unfolding spaced_token status_at
parse_status len line = do
  protocol ← spaced_token len line
  elim protocol [ none ↦ some 0 | some m ↦ status_at (len - m.1) (drop m.1 line) ]

-- `while (i >= 10) i = i / 10`.
unfoldable pub first_digit : (fuel i : ℕ) → ℕ
first_digit zero i = i
first_digit (suc fuel) i = let rest = first_digit fuel (i / 10) in if leb 10 i then rest else i

unfoldable pub has_error_status : (status_code : ℕ) → Bool
unfolding first_digit
has_error_status status_code = ltb 3 (first_digit status_code status_code)

pub record Response : Type 0 where
  pub hdlen : ℕ
  pub processed : Bool
  pub acknowledgement : ℕ
  pub status_code : ℕ
  pub version : Version
  pub server : Option (List ℕ)
  pub date : Option (List ℕ)
  pub expires : Option (List ℕ)
  pub last_modified : Option (List ℕ)
  pub etag : Option (List ℕ)
  pub age : Option (List ℕ)
  pub accept_ranges : Option (List ℕ)
  pub content_type : Option (List ℕ)
  pub content_encoding : Option (List ℕ)
  pub content_length : Option (List ℕ)
  pub location : Option (List ℕ)

-- What is read once the status is known.
unfoldable pub response_fields : (hend : ℕ) → List ℕ → Response → Option Response
unfolding response_version header_param
response_fields hend «data» r = do
  version ← response_version «data»
  server ← header_param (codes "Server:") hend «data»
  date ← header_param (codes "Date:") hend «data»
  expires ← header_param (codes "Expires:") hend «data»
  last_modified ← header_param (codes "Last-Modified:") hend «data»
  etag ← header_param (codes "ETag:") hend «data»
  age ← header_param (codes "Age:") hend «data»
  accept_ranges ← header_param (codes "Accept-Ranges:") hend «data»
  content_type ← header_param (codes "Content-Type:") hend «data»
  content_encoding ← header_param (codes "Content-Encoding:") hend «data»
  content_length ← header_param (codes "Content-Length:") hend «data»
  location ← header_param (codes "Location:") hend «data»
  some (record r {
    version = version;
    server = server;
    date = date;
    expires = expires;
    last_modified = last_modified;
    etag = etag;
    age = age;
    accept_ranges = accept_ranges;
    content_type = content_type;
    content_encoding = content_encoding;
    content_length = content_length;
    location = location;
  })

unfoldable pub response_new : (memory : Response) → (n : ℕ) → List ℕ → (ack : ℕ) → Option Response
unfolding find_header_end find_line_end parse_status response_fields
response_new memory n «data» ack = do
  (end, line_cnt) ← find_header_end n «data»
  eoh ← end
  (lineep, eol) ← find_line_end eoh «data»
  status_code ← parse_status (lineep + 1) «data»
  let r = record memory {
    processed = false;
    hdlen = eoh + 1;
    acknowledgement = ack;
    status_code = status_code;
  } in
      if status_code == 0 then some r else response_fields eoh «data» r
