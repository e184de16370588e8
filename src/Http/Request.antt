-- ===== src/Http/Request.antt =====
-- A request, `_http::Request` of src/protocols/http.cpp, as its constructors make it. A string is `none`
-- where its pointer is NULL. The constructor of the base class resets three members, the others keep what
-- `new` finds in the memory. The captured time is assigned to the parameter `time`, so the member of
-- that name is left as it is. Names of methods are compared by their pointers, each to a literal that
-- the table holds too: the numbers 0 and 4 stand for "NONE" and "POST".
use monitoring_tool.Prelude.{ℕ, ◌+◌, Bool, false, Option, none, some, List, ◌==◌, if◌then◌else◌}
use monitoring_tool.Prelude.Partial.{◌>>=◌}
use monitoring_tool.Text.{codes, find_line_end, find_header_end, header_param}
use monitoring_tool.Http.{Version, parse_method, parse_uri, request_version}

pub record Request : Type 0 where
  pub time : Option (List ℕ)
  pub hdlen : ℕ
  pub processed : Bool
  pub seq : ℕ
  pub nxt_seq : ℕ
  pub method_code : ℕ
  pub version : Version
  pub host : Option (List ℕ)
  pub uri : Option (List ℕ)
  pub user_agent : Option (List ℕ)
  pub referer : Option (List ℕ)
  pub connection : Option (List ℕ)
  pub accept : Option (List ℕ)
  pub accept_encoding : Option (List ℕ)
  pub accept_language : Option (List ℕ)
  pub accept_charset : Option (List ℕ)
  pub cookie : Option (List ℕ)
  pub content_type : Option (List ℕ)
  pub content_encoding : Option (List ℕ)
  pub content_length : Option (List ℕ)

-- `_protocol::Request()`.
abbrev pub base_request : Request → Request
base_request memory = record memory { time = none; hdlen = 0; processed = false }

-- The fields that only a POST has.
unfoldable pub request_content : (hend : ℕ) → List ℕ → Request → Option Request
unfolding header_param
request_content hend «data» r = do
  content_type ← header_param (codes "Content-Type:") hend «data»
  content_encoding ← header_param (codes "Content-Encoding:") hend «data»
  content_length ← header_param (codes "Content-Length:") hend «data»
  some (record r {
    content_type = content_type;
    content_encoding = content_encoding;
    content_length = content_length;
  })

-- What is read once the method is known. `lnl` is the length of the first line.
unfoldable pub request_fields : (hend lnl : ℕ) → List ℕ → Request → Option Request
unfolding parse_uri request_version header_param request_content
request_fields hend lnl «data» r = do
  uri ← parse_uri lnl «data»
  version ← request_version lnl «data»
  host ← header_param (codes "Host:") hend «data»
  referer ← header_param (codes "Referer:") hend «data»
  user_agent ← header_param (codes "User-Agent:") hend «data»
  connection ← header_param (codes "Connection:") hend «data»
  accept ← header_param (codes "Accept:") hend «data»
  accept_encoding ← header_param (codes "Accept-Encoding:") hend «data»
  accept_language ← header_param (codes "Accept-Language:") hend «data»
  accept_charset ← header_param (codes "Accept-Charset:") hend «data»
  cookie ← header_param (codes "Cookie:") hend «data»
  let r' = record r {
    uri = uri;
    version = version;
    host = host;
    referer = referer;
    user_agent = user_agent;
    connection = connection;
    accept = accept;
    accept_encoding = accept_encoding;
    accept_language = accept_language;
    accept_charset = accept_charset;
    cookie = cookie;
  } in
      if r.method_code == 4 then request_content hend «data» r' else some r'

-- `n` is `dataend - data + 1`. Without an end of the header the next step reads through NULL.
unfoldable pub request_new :
    (memory : Request) → (n : ℕ) → List ℕ → (seq nxt_seq : ℕ) → Option Request
unfolding find_header_end find_line_end parse_method request_fields
request_new memory n «data» seq nxt_seq = do
  (end, line_cnt) ← find_header_end n «data»
  eoh ← end
  (lineep, eol) ← find_line_end eoh «data»
  method_code ← parse_method (lineep + 1) «data»
  let r = record (base_request memory) {
    seq = seq;
    nxt_seq = nxt_seq;
    hdlen = eoh + 1;
    method_code = method_code;
  } in
      if method_code == 0 then some r else request_fields eoh (lineep + 1) «data» r
