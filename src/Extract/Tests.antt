-- ===== src/Extract/Tests.antt =====
-- A flow of two requests and the response to the first.
use monitoring_tool.Prelude.{ℕ, ◌+◌, ◌≡◌, refl, true, false, Option, none, some, [], ◌∷◌}
use monitoring_tool.Packet.{packet_new, req, rsp}
use monitoring_tool.Order.{Seq, seq_new}
use monitoring_tool.Extract.Records.{Flow, MessageParser}
use monitoring_tool.Extract.Flows.{extract_pair}
use mathlib.Core.Option
use monitoring_tool.Prelude.{All, map}
use monitoring_tool.Extract.Records.{Pair, compare_sequence_time}
use monitoring_tool.Extract.Fins.{fin_seq, set_first_byte}
use monitoring_tool.Extract.Requests.{is_within, is_new, RequestWalk, find_requests}
use monitoring_tool.Extract.Flows.{request_start}
use monitoring_tool.Extract.NewPairs.{mark_requests, no_fin-IsSafe, IsFound, find_requests-IsFound}
use monitoring_tool.Extract.Again.{extract_pair_quiet, extract_pair_again}
use monitoring_tool.Extract.Matches.{IsPairMatch}
use monitoring_tool.Extract.Kept.{extract_pair-IsPairMatch}

abbrev parser : MessageParser
parser = record {
  get_request = λ p s n. record { hdlen = 5; processed = false; seq = s; nxt_seq = n };
  get_response = λ p a. record { hdlen = 7; processed = false; time = []; size = [] };
  keeps_nxt_seq = λ p s n. refl;
}

abbrev request_record : ℕ → ℕ → Seq
request_record n t = record seq_new {
  pkt = some (record packet_new { type = req; tcp_seq = n; tcp_dl = 10 });
  seq = n;
  nxt_seq = n + 10;
  cap_sec = t;
}

abbrev response_record : ℕ → ℕ → ℕ → Seq
response_record n a t = record seq_new {
  pkt = some (record packet_new { type = rsp; tcp_seq = n; tcp_ack = a; tcp_dl = 20 });
  seq = n;
  nxt_seq = n + 20;
  cap_sec = t;
  size = 20;
}

abbrev fin_record : ℕ → ℕ → Seq
fin_record n t = record seq_new { seq = n; nxt_seq = n + 1; th_flags = 1; cap_sec = t }

abbrev flow : Flow
flow = record {
  src = request_record 100 1 ∷ request_record 110 3 ∷ fin_record 120 9 ∷ [];
  dst = response_record 500 110 2 ∷ [];
  init = false;
  fb_sec = 0;
  fb_usec = 0;
  lb_sec = 0;
  lb_usec = 0;
  pair_f = [];
}

flow_code : Option.map (λ (r : Flow × ℕ). r.1) (extract_pair parser flow false) ≡ some 0
unfolding extract_pair
flow_code = refl

-- The flow that a call leaves.
abbrev after : Option (Flow × ℕ) → Flow
after none = flow
after (some r) = r.0

abbrev left : Flow
unfolding extract_pair
left = after (extract_pair parser flow false)

left_pairs :
    map {B = ℕ × ℕ × ℕ}
      (λ (p : Pair). (p.req_total_len, p.rsp_total_len, p.rsp_body_len))
      left.pair_f
    ≡ (10, 20, 13) ∷ (10, 0, 0) ∷ []
unfolding extract_pair
left_pairs = refl

find_requests-IsFound_example :
    (w' : RequestWalk) × (find_requests parser none false 0 flow.src (request_start flow)
      ≡ some (mark_requests none flow.src, w'))
    × IsFound parser none flow.src (request_start flow) w'
find_requests-IsFound_example =
    find_requests-IsFound parser none false 0 flow.src (request_start flow) (no_fin-IsSafe false)

extract_pair_quiet_example :
    extract_pair parser (record flow { src = fin_record 120 9 ∷ [] }) false
    ≡ some (set_first_byte (record flow { src = fin_record 120 9 ∷ [] }), 1)
unfolding is_new is_within compare_sequence_time fin_seq
extract_pair_quiet_example =
    extract_pair_quiet parser (record flow { src = fin_record 120 9 ∷ [] }) false (λ h. (refl, tt))

extract_pair_again_example : extract_pair parser left true ≡ some (left, 1)
unfolding extract_pair
extract_pair_again_example = extract_pair_again parser flow left false true 0 refl

extract_pair-IsPairMatch_example : All (IsPairMatch parser (λ (s : Seq). s.size ≡ 20)) left.pair_f
unfolding extract_pair
extract_pair-IsPairMatch_example =
    extract_pair-IsPairMatch parser (λ (s : Seq). s.size ≡ 20) flow left false 0 (refl, tt) tt refl
