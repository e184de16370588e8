-- ===== src/Extract/Requests.antt =====
-- "First step: find requests" of `Protocol::extractPair`, c-http-sniffer/src/protocols/protocol.cpp. The
-- code has the walk twice, for a flow with a FIN record and for one without. `new_pair` is the pair at
-- the end of the flow's chain that a step opened, with the number that its `first_seq` begins at.
use monitoring_tool.Prelude.{
  ℕ, suc, ◌+◌, ◌-◌, ◌%◌, ◌^◌, Bool, true, false, not, ◌&&◌, ◌||◌, Option, none, some, List, [], ◌∷◌,
  ◌++◌, ◌==◌, if◌then◌else◌,
}
use monitoring_tool.Prelude.Partial.{◌>>=◌}
use monitoring_tool.Packet.{Packet, req}
use monitoring_tool.Order.{Seq}
use monitoring_tool.Extract.Records.{
  Pair, pair_new, add_request, MessageParser, compare_sequence_time, is_before, last_byte,
}
use monitoring_tool.Extract.Fins.{Fin}

-- The condition of the loop on a record that is there.
unfoldable pub is_within : Option Fin → Seq → Bool
unfolding compare_sequence_time
is_within none s = true
is_within (some fin) s = is_before s fin.seq

-- `seq_next == fin_seq`, by the position in the list of the side.
unfoldable pub is_fin : (in_src : Bool) → Fin → ℕ → Bool
is_fin true fin n = fin.in_src && fin.position == n
is_fin false fin n = not fin.in_src && fin.position == n

abbrev pub has_pkt : Seq → Bool
has_pkt s = elim s.pkt [ none ↦ false | some p ↦ true ]

abbrev pub is_type : ℕ → Option Packet → Bool
is_type type none = false
is_type type (some p) = p.type == type

-- A record with a packet of the type, not processed yet.
unfoldable pub is_new : (type : ℕ) → Seq → Bool
is_new type s = is_type type s.pkt && not s.processed

-- "Last bit": whether the record before `rest` ends its message, at position `n`. Without a next record
-- in a flow that is open, its time is read through NULL.
unfoldable pub is_request_end : Option Fin → (closed : Bool) (n : ℕ) (rest : List Seq) → Option Bool
unfolding is_fin is_within
is_request_end none closed n [] = some closed
is_request_end none closed n (t ∷ ts) = some (has_pkt t)
is_request_end (some fin) true n [] = some true
is_request_end (some fin) false n [] = none
is_request_end (some fin) closed n (t ∷ ts) =
    some (is_fin true fin (suc n) || has_pkt t || not (is_within (some fin) t))

pub record RequestWalk : Type 0 where
  pub pair_f : List Pair
  pub new_pair : Option (ℕ × Pair)
  pub reqn : ℕ
  pub lb_sec : ℕ
  pub lb_usec : ℕ

-- The chain of the flow.
abbrev pub chain : List Pair → Option (ℕ × Pair) → List Pair
chain pairs none = pairs
chain pairs (some (first, p)) = pairs ++ p ∷ []

-- The pair that a new request makes.
unfoldable pub request_pair : MessageParser → Seq → Packet → Pair
request_pair parser s p =
    add_request (parser.get_request p p.tcp_seq ((p.tcp_seq + p.tcp_dl) % 2 ^ 32))
      (record pair_new {
        req_fb_sec = s.cap_sec;
        req_fb_usec = s.cap_usec;
        req_lb_sec = s.cap_sec;
        req_lb_usec = s.cap_usec;
      })

-- The body of the loop on a new request; a record without a packet has none.
abbrev pub open_pair : MessageParser → Seq → Option Packet → RequestWalk → RequestWalk
open_pair parser s none w = w
open_pair parser s (some p) w = record w {
  pair_f = chain w.pair_f w.new_pair;
  new_pair = some (s.seq, request_pair parser s p);
  reqn = w.reqn + 1;
}

-- The length of the request, where the record has a next number.
abbrev pub set_request_length : Seq → (first : ℕ) → Pair → Pair
set_request_length s first p =
    if s.nxt_seq == 0
    then p
    else record p { req_total_len = (s.nxt_seq + 2 ^ 32 - first) % 2 ^ 32; req_body_len = 0 }

-- The end of the body, on the last bit or not.
unfoldable pub end_request : (last : Bool) → Seq → RequestWalk → RequestWalk
end_request false s w = w
end_request true s w = elim w.new_pair [
  | none ↦ w
  | some (first, p) ↦ record w {
    new_pair = some (first, set_request_length s first p);
    lb_sec = (last_byte s w.lb_sec w.lb_usec).0;
    lb_usec = (last_byte s w.lb_sec w.lb_usec).1;
  }
]

-- "Omit the TCP handshake sequences", and a record that is processed.
abbrev pub is_skipped : Seq → Option (ℕ × Pair) → Bool
is_skipped s none = true
is_skipped s (some pair) = s.processed

-- The record behind the body of a loop: `seq->processed = true` on a new one.
abbrev pub marked : (type : ℕ) → Seq → Seq
marked type s = if is_new type s then record s { processed = true } else s

-- The walk behind the body of the loop.
unfoldable pub request_step :
    MessageParser
    → Option Fin
    → (closed : Bool) (n : ℕ) → Seq
    → (rest : List Seq) → RequestWalk
    → Option RequestWalk
unfolding is_new is_request_end end_request request_pair
request_step parser fin closed n s rest w =
    if is_new req s
    then (do
      last ← is_request_end fin closed n rest
      some (end_request last s (open_pair parser s s.pkt w)))
    else if is_skipped s w.new_pair
    then some w
    else (do last ← is_request_end fin closed n rest; some (end_request last s w))

unfoldable pub find_requests :
    MessageParser
    → Option Fin
    → (closed : Bool) (n : ℕ) → List Seq
    → RequestWalk
    → Option (List Seq × RequestWalk)
unfolding is_within is_new request_step
find_requests parser fin closed n [] w = some ([], w)
find_requests parser fin closed n (s ∷ seqs) w =
    if is_within fin s
    then (do
      w' ← request_step parser fin closed n s seqs w
      (seqs', w'') ← find_requests parser fin closed (suc n) seqs w'
      some (marked req s ∷ seqs', w''))
    else some (s ∷ seqs, w)
