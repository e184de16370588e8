-- ===== src/Extract/Flows.antt =====
-- `Protocol::extractPair` of c-http-sniffer/src/protocols/protocol.cpp from its parts: the flow behind
-- it and the value returned. `none` is an access through NULL or beyond a buffer.
use monitoring_tool.Prelude.{ℕ, zero, suc, Bool, false, Option, none, some, List}
use monitoring_tool.Prelude.Partial.{◌>>=◌}
use monitoring_tool.Order.{Seq}
use monitoring_tool.Extract.Records.{Flow, MessageParser}
use monitoring_tool.Extract.Fins.{Fin, fin_seq, set_first_byte}
use monitoring_tool.Extract.Requests.{RequestWalk, chain, find_requests}
use monitoring_tool.Extract.Responses.{ResponseWalk, find_responses}

-- The walks begin without a pair of their own, that of the responses at the first pair.
abbrev pub request_start : Flow → RequestWalk
request_start f = record {
  pair_f = f.pair_f;
  new_pair = none;
  reqn = 0;
  lb_sec = f.lb_sec;
  lb_usec = f.lb_usec;
}

abbrev pub response_start : RequestWalk → ResponseWalk
response_start w = record {
  pair_f = chain w.pair_f w.new_pair;
  tmp = 0;
  found_pair = none;
  first_packet = false;
  lb_sec = w.lb_sec;
  lb_usec = w.lb_usec;
}

-- The flow behind the first step.
abbrev pub with_requests : Flow → List Seq → RequestWalk → Flow
with_requests f src w = record f {
  src = src;
  pair_f = chain w.pair_f w.new_pair;
  lb_sec = w.lb_sec;
  lb_usec = w.lb_usec;
}

-- The second step, for a flow in which the first has found a request.
unfoldable pub add_responses :
    MessageParser → Option Fin → Flow → List Seq → RequestWalk → Option (Flow × ℕ)
unfolding find_responses
add_responses parser fin f src w = elim w.reqn [
  | zero ↦ some (with_requests f src w, 1)
  | suc k ↦ do
    (dst, w', code) ← find_responses parser fin 0 f.dst (response_start w)
    some (
      record f {
        src = src;
        dst = dst;
        pair_f = w'.pair_f;
        lb_sec = w'.lb_sec;
        lb_usec = w'.lb_usec;
      },
      code,
    )
]

unfoldable pub extract_pair : MessageParser → Flow → (closed : Bool) → Option (Flow × ℕ)
unfolding set_first_byte fin_seq find_requests add_responses
extract_pair parser f closed =
    let fin = fin_seq f.src f.dst in
    do
      (src, w) ← find_requests parser fin closed 0 f.src (request_start f)
      add_responses parser fin (set_first_byte f) src w
