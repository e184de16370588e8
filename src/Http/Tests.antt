-- ===== src/Http/Tests.antt =====
-- Small messages.
use monitoring_tool.Prelude.{ℕ, ◌+◌, ◌≡◌, refl, true, false, some, none, List, [], ◌∷◌, arith}
use monitoring_tool.Text.{codes}
use monitoring_tool.Text.Lines.{render, lines_length}
use monitoring_tool.Http.{http_ver_1_1, http_ver_none, parse_method, is_request, is_response}
use monitoring_tool.Http.RequestLine.{version_text, request_line}
use monitoring_tool.Http.RoundTrip.{with_fields, request_new-render}
use monitoring_tool.Http.Request.{Request, request_new}
use monitoring_tool.Http.Response.{parse_status}

get_is_request : is_request 20 (codes "GET /a HTTP/1.1\r\n\r\n") ≡ some (some 18)
unfolding is_request
get_is_request = refl

ok_is_response : is_response 19 (codes "HTTP/1.1 200 OK\r\n\r\n") ≡ some (some 18)
unfolding is_response
ok_is_response = refl

-- The beginning of a method is taken for the method.
ge_is_get : parse_method 9 (codes "GE /a bcd") ≡ some 2
unfolding parse_method
ge_is_get = refl

-- The method of RFC 3253 is spelled with a dash, the table has a low line.
version_control_unknown : parse_method 20 (codes "VERSION-CONTROL /a x") ≡ some 0
unfolding parse_method
version_control_unknown = refl

-- A leading zero makes the number octal: 0310 is 200.
octal_status : parse_status 16 (codes "HTTP/1.1 0310 OK") ≡ some 200
unfolding parse_status
octal_status = refl

abbrev memory : Request
memory = record {
  time = none;
  hdlen = 7;
  processed = true;
  seq = 7;
  nxt_seq = 7;
  method_code = 7;
  version = http_ver_none;
  host = none;
  uri = none;
  user_agent = none;
  referer = none;
  connection = none;
  accept = none;
  accept_encoding = none;
  accept_language = none;
  accept_charset = none;
  cookie = none;
  content_type = none;
  content_encoding = none;
  content_length = none;
}

abbrev fields : List (List ℕ)
fields = codes "Host: b" ∷ codes "Content-Length: 3" ∷ []

abbrev post : List ℕ
post = request_line (codes "POST") (codes "/a") (version_text http_ver_1_1)

request_new-render_example :
    request_new memory 60 (render (post ∷ fields) (codes "abc")) 5 8
    ≡ some (
        with_fields (post ∷ fields) (codes "/a") http_ver_1_1 (record memory {
          time = none;
          hdlen = lines_length (post ∷ fields) + 2;
          processed = false;
          seq = 5;
          nxt_seq = 8;
          method_code = 4;
        }))
request_new-render_example =
    request_new-render memory 4 (codes "POST") (codes "a") b'/' http_ver_1_1 fields (codes "abc") 60
      5 8 refl (omega arith) (ground arith)
      ((ground arith, omega arith), ((ground arith, omega arith), tt)) (omega arith)
