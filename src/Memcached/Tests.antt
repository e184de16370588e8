-- ===== src/Memcached/Tests.antt =====
-- Small messages.
use monitoring_tool.Prelude.{◌≡◌, refl, true, false, some, none, [], ◌∷◌}
use monitoring_tool.Text.{codes}
use monitoring_tool.Memcached.{parse_reply, is_request, is_response}
use monitoring_tool.Memcached.Request.{Request}
use monitoring_tool.Memcached.Response.{Response, response_new}

get_is_request : is_request (codes "get a\r\n") ≡ some (some 6)
unfolding is_request
get_is_request = refl

stored_is_response : is_response (codes "STORED \r\n") ≡ some (some 8)
unfolding is_response
stored_is_response = refl

-- A reply of one word is compared with its CR and LF, and not recognised.
end_is_none : is_response (codes "END\r\n") ≡ some none
unfolding is_response
end_is_none = refl

-- A line that starts with a space is taken for VALUE.
space_is_value : parse_reply 4 (codes " x\r\n") ≡ some 0
unfolding parse_reply
space_is_value = refl

abbrev memory : Request
memory = record {
  time = none;
  hdlen = 7;
  processed = true;
  seq = 7;
  nxt_seq = 7;
  method_code = 7;
  keys = [];
  expiration = 7;
  flags = 7;
}

abbrev old : Response
old = record {
  hdlen = 7;
  processed = true;
  acknowledgement = 7;
  status_code = 7;
  keys = [];
  flags = 7;
  bodylen = 7;
}

-- VALUE is taken for the key, the key for the flags; the length of the body is not read.
value_response :
    response_new old 55 66 14 (codes "VALUE a 0 3\r\nabc") 9
    ≡ some (record {
      hdlen = 13;
      processed = false;
      acknowledgement = 9;
      status_code = 0;
      keys = codes "VALUE" ∷ [];
      flags = 55;
      bodylen = 7;
    })
unfolding response_new
value_response = refl
