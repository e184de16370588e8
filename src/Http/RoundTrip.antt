-- ===== src/Http/RoundTrip.antt =====
-- What the constructor of a request, src/protocols/http.cpp, reads of a whole header.
use monitoring_tool.Prelude.{
  ℕ, suc, ◌+◌, ◌≤◌, ◌≡◌, refl, ap, ◌∙◌, false, Option, none, some, List, [], ◌∷◌, ◌++◌, arith, ◌==◌,
  if◌then◌else◌, length, get_elem?, All, Bool-cases, inl, inr,
}
use monitoring_tool.Prelude.Partial.{◌>>=◌, >>=-returns}
use monitoring_tool.Text.{codes, find_line_end, find_header_end, header_param}
use monitoring_tool.Text.Lines.{IsLine, render, lines_length, find_line_end-line}
use monitoring_tool.Text.HeaderEnd.{IsField, find_header_end-render}
use monitoring_tool.Text.Params.{header_param-render}
use monitoring_tool.Text.Values.{IsName, field_value}
use monitoring_tool.Text.Tokens.{IsToken}
use monitoring_tool.Http.{Version, methods_name, parse_method, parse_uri, request_version}
use monitoring_tool.Http.Methods.{code_of, method-word, parse_method-name}
use monitoring_tool.Http.RequestLine.{
  version_text, version_tail, version_text-IsLine, response_version-text, request_line,
  request_line-IsLine, request_line-append, length-request_line, parse_uri-request_line,
  request_version-request_line,
}
use monitoring_tool.Http.Request.{Request, request_content, request_fields, request_new}

-- The request that a header of lines stands for, less what only a POST has.
abbrev pub with_line : (lines : List (List ℕ)) → (uri : List ℕ) → Version → Request → Request
with_line lines uri v r = record r {
  uri = some uri;
  version = v;
  host = field_value (codes "Host:") lines;
  referer = field_value (codes "Referer:") lines;
  user_agent = field_value (codes "User-Agent:") lines;
  connection = field_value (codes "Connection:") lines;
  accept = field_value (codes "Accept:") lines;
  accept_encoding = field_value (codes "Accept-Encoding:") lines;
  accept_language = field_value (codes "Accept-Language:") lines;
  accept_charset = field_value (codes "Accept-Charset:") lines;
  cookie = field_value (codes "Cookie:") lines;
}

abbrev pub with_content : (lines : List (List ℕ)) → Request → Request
with_content lines r = record r {
  content_type = field_value (codes "Content-Type:") lines;
  content_encoding = field_value (codes "Content-Encoding:") lines;
  content_length = field_value (codes "Content-Length:") lines;
}

abbrev pub with_fields : (lines : List (List ℕ)) → (uri : List ℕ) → Version → Request → Request
with_fields lines uri v r =
    if r.method_code == 4
    then with_content lines (with_line lines uri v r)
    else with_line lines uri v r

module _ (lines : List (List ℕ)) (hend : ℕ) (header : List ℕ) (r : Request)
    (params : (param : List ℕ)
      → IsName param
      → header_param param hend header ≡ some (field_value param lines)) where
  reads :
      (param : List ℕ) (k : Option (List ℕ) → Option Request) {made : Option Request}
      → IsName param
      → k (field_value param lines) ≡ made
      → (header_param param hend header >>= k) ≡ made
  reads param k name e = >>=-returns (header_param param hend header) k (params param name) e

  request_content-fields : request_content hend header r ≡ some (with_content lines r)
  unfolding request_content
  request_content-fields = reads (codes "Content-Type:") _ (ground arith) (
      reads (codes "Content-Encoding:") _ (ground arith)
        (reads (codes "Content-Length:") _ (ground arith) refl))

module _ (lines : List (List ℕ)) (hend lnl : ℕ) (header uri : List ℕ) (v : Version) (r : Request)
    (params : (param : List ℕ)
      → IsName param
      → header_param param hend header ≡ some (field_value param lines)) where
  request_fields-fields :
      parse_uri lnl header ≡ some (some uri)
      → request_version lnl header ≡ some v
      → request_fields hend lnl header r ≡ some (with_fields lines uri v r)
  unfolding request_fields
  request_fields-fields read version = >>=-returns (parse_uri lnl header) _ read (
      >>=-returns (request_version lnl header) _ version (
        next (codes "Host:") _ (ground arith) (
          next (codes "Referer:") _ (ground arith) (
            next (codes "User-Agent:") _ (ground arith) (
              next (codes "Connection:") _ (ground arith) (
                next (codes "Accept:") _ (ground arith) (
                  next (codes "Accept-Encoding:") _ (ground arith) (
                    next (codes "Accept-Language:") _ (ground arith) (
                      next (codes "Accept-Charset:") _ (ground arith)
                        (next (codes "Cookie:") _ (ground arith) content))))))))))
    where
      next :
          (param : List ℕ) (k : Option (List ℕ) → Option Request) {made : Option Request}
          → IsName param
          → k (field_value param lines) ≡ made
          → (header_param param hend header >>= k) ≡ made
      next = reads lines hend header r params

      content :
          (if r.method_code == 4
            then request_content hend header (with_line lines uri v r)
            else some (with_line lines uri v r))
          ≡ some (with_fields lines uri v r)
      content = elim (Bool-cases (r.method_code == 4)) [
        | inl post ↦
            rw post (request_content-fields lines hend header (with_line lines uri v r) params)
        | inr other ↦ rw other refl
      ]

method-long : (m : List ℕ) (i : ℕ) → code_of m 0 methods_name ≡ i → 1 ≤ i → 1 ≤ length m
method-long [] i h first = absurd (omega (arith, h))
method-long (c ∷ m) i h first = omega arith

IsField-IsLine : (fields : List (List ℕ)) → All IsField fields → All IsLine fields
IsField-IsLine [] h = tt
IsField-IsLine (l ∷ fields) h = (h.0.0, IsField-IsLine fields h.1)

-- A header whose first line is a method of the table, an URI and a version, each a word, and whose other
-- lines are not empty, is read whole by the constructor of a request: the number of the method, the URI,
-- the version, and of each field the value of the first line with its name. Of a method other than POST
-- the three fields of the content keep what the memory held, and the time of capture is NULL.
pub request_new-render :
    (memory : Request) (i : ℕ) (m u : List ℕ) (b : ℕ) (v : Version) (fields : List (List ℕ))
    (rest : List ℕ) (n seq nxt_seq : ℕ)
    → get_elem? methods_name i ≡ some m
    → 1 ≤ i
    → IsToken (b ∷ u)
    → All IsField fields
    → lines_length (request_line m (b ∷ u) (version_text v) ∷ fields) + 2 ≤ n
    → request_new memory n
        (render (request_line m (b ∷ u) (version_text v) ∷ fields) rest)
        seq
        nxt_seq
      ≡ some (
          with_fields (request_line m (b ∷ u) (version_text v) ∷ fields) (b ∷ u) v (record memory {
            time = none;
            hdlen = lines_length (request_line m (b ∷ u) (version_text v) ∷ fields) + 2;
            processed = false;
            seq = seq;
            nxt_seq = nxt_seq;
            method_code = i;
          }))
unfolding request_new
request_new-render memory i m u b v fields rest n seq nxt_seq got some_method uri h bound =
    let line = request_line m (b ∷ u) (version_text v) in
    let lines = line ∷ fields in
    let header = render lines rest in
    let (token, text, plain, number) = method-word i m got in
    let long : 1 ≤ length m = method-long m i number some_method in
    let whole = request_line-IsLine m (b ∷ u) (version_text v) token uri (version_text-IsLine v) in
    let lnl = suc (length line) + 1 in
    let enough : length m + length u + 4 ≤ lnl =
      omega (arith, length-request_line m (b ∷ u) (version_text v)) in
    let parts : header
        ≡ request_line m (b ∷ u) (b'H' ∷ (version_tail v ++ (13 ∷ 10 ∷ render fields rest))) =
      request_line-append m (b ∷ u) (version_text v) (13 ∷ 10 ∷ render fields rest) in
    let not_none : i == 0 ≡ false = ground arith in
    let r = record memory {
      time = none;
      hdlen = lines_length lines + 1 + 1;
      processed = false;
      seq = seq;
      nxt_seq = nxt_seq;
      method_code = i;
    } in
    let behind = version_tail v ++ (13 ∷ 10 ∷ render fields rest) in
    let read : parse_uri lnl header ≡ some (some (b ∷ u)) =
      ap (parse_uri lnl) parts
      ∙ parse_uri-request_line m u behind b b'H' lnl token long uri (omega arith) enough in
    let version : request_version lnl header ≡ some v =
      ap (request_version lnl) parts
      ∙ request_version-request_line m u behind b b'H' lnl token long uri (omega arith) enough
      ∙ response_version-text v (13 ∷ 10 ∷ render fields rest) in
    let params : (param : List ℕ)
        → IsName param
        → header_param param (lines_length lines + 1) header ≡ some (field_value param lines) =
      λ param name. header_param-render param lines rest name (whole, IsField-IsLine fields h) in
    >>=-returns (find_header_end n header) _
      (find_header_end-render line fields rest n whole h bound)
      (>>=-returns (find_line_end (lines_length lines + 1) header) _
        (find_line_end-line line (render fields rest) (lines_length lines + 1) whole (omega arith))
        (>>=-returns (parse_method lnl header) _
          (ap (parse_method lnl) parts
            ∙ parse_method-name i m ((b ∷ u) ++ (32 ∷ b'H' ∷ behind)) lnl got (omega arith))
          (rw not_none (
            request_fields-fields lines (lines_length lines + 1) lnl header (b ∷ u) v r params read
              version
            ∙ ap (λ (k : ℕ). some (with_fields lines (b ∷ u) v (record r { hdlen = k })))
                (omega arith)))))
