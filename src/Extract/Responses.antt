-- ===== src/Extract/Responses.antt =====
-- "Second step: find responses" of `Protocol::extractPair`, c-http-sniffer/src/protocols/protocol.cpp.
-- The code has the walk twice, for a flow with a FIN record and for one without. Pairs are positions in
-- the flow's chain: `tmp`, from which the next pair is searched, and `found_pair`, with the number that
-- its `first_seq` begins at.
use monitoring_tool.Prelude.{
  ℕ, zero, suc, ◌+◌, ◌-◌, ◌%◌, ◌^◌, Bool, true, false, not, ◌&&◌, ◌||◌, Option, none, some, List,
  [], ◌∷◌, ◌++◌, ltb, leb, ◌==◌, if◌then◌else◌, length, get_elem?, drop,
}
use monitoring_tool.Prelude.Partial.{◌>>=◌}
use monitoring_tool.Util.{decimal}
use monitoring_tool.Packet.{Packet, rsp}
use monitoring_tool.Order.{Seq}
use monitoring_tool.Extract.Records.{Response, Pair, add_response, MessageParser, last_byte}
use monitoring_tool.Extract.Fins.{Fin}
use monitoring_tool.Extract.Requests.{is_within, is_fin, is_new, has_pkt, marked}

-- Where the search for a response's pair stops: at the end of the chain, at a pair that it does not
-- pass, or at the pair of the response.
pub data Search : Type 0 where
  ended : Search
  stopped : ℕ → Search
  matched : ℕ → Search

abbrev pub is_open : Option Response → Bool
is_open none = true
is_open (some response) = false

-- "Try to find the first pair without response", from the pair at `tmp` on. A pair without a request is
-- an access through NULL.
unfoldable pub find_pair : (ack tmp : ℕ) → List Pair → Option Search
find_pair ack tmp [] = some ended
find_pair ack tmp (p ∷ pairs) =
    let later = find_pair ack (suc tmp) pairs in
    elim p.request_header [
      | none ↦ none
      | some r ↦
          if not (leb r.nxt_seq ack)
          then some (stopped tmp)
          else if is_open p.response_header && r.nxt_seq == ack
          then some (matched tmp)
          else later
    ]

-- The pair at a position changed.
abbrev pub modify : ℕ → (Pair → Pair) → List Pair → List Pair
modify i f [] = []
modify zero f (p ∷ pairs) = f p ∷ pairs
modify (suc i) f (p ∷ pairs) = p ∷ modify i f pairs

-- `strcat` into a buffer of 256 bytes.
unfoldable pub append_text : (buffer text : List ℕ) → Option (List ℕ)
append_text buffer text =
    if ltb (length buffer + length text) 256 then some (buffer ++ text) else none

-- The time and the size of one record, `none` where a buffer is too short.
unfoldable pub note_record : (first_packet : Bool) → Seq → Response → Option Response
unfolding append_text decimal
note_record first_packet s r = do
  time ← append_text r.time (b',' ∷ decimal 20 s.cap_usec)
  size ← append_text r.size (if first_packet then decimal 10 s.size else (b',' ∷ decimal 10 s.size))
  some (record r { time = time; size = size })

-- Whether the record before `rest` ends its response, at position `n`.
unfoldable pub is_response_end : Option Fin → (n : ℕ) (rest : List Seq) → Bool
unfolding is_fin is_within
is_response_end fin n [] = true
is_response_end none n (t ∷ ts) = has_pkt t
is_response_end (some fin) n (t ∷ ts) =
    is_fin false fin (suc n) || has_pkt t || not (is_within (some fin) t)

-- The last byte and the lengths of the response. `rsp_body_len` is unsigned, never below 0.
unfoldable pub end_response : (last : Bool) → Seq → (first hdlen : ℕ) → Pair → Pair
end_response false s first hdlen p = p
end_response true s first hdlen p =
    let ended = record p { rsp_lb_sec = s.cap_sec; rsp_lb_usec = s.cap_usec } in
    let total = (s.nxt_seq + 2 ^ 32 - first) % 2 ^ 32 in
    if s.nxt_seq == 0
    then ended
    else record ended { rsp_total_len = total; rsp_body_len = (total + 2 ^ 32 - hdlen) % 2 ^ 32 }

pub record ResponseWalk : Type 0 where
  pub pair_f : List Pair
  pub tmp : ℕ
  pub found_pair : Option (ℕ × ℕ)
  pub first_packet : Bool
  pub lb_sec : ℕ
  pub lb_usec : ℕ

-- The end of the body: the record is noted on the pair that was found.
unfoldable pub note_on :
    Option Fin
    → (n : ℕ) → Seq
    → (rest : List Seq) → (found_pair : Option (ℕ × ℕ)) → ResponseWalk
    → Option ResponseWalk
unfolding note_record is_response_end end_response
note_on fin n s rest none w = some w
note_on fin n s rest (some (first, i)) w =
    let last = is_response_end fin n rest in
    do
      p ← get_elem? w.pair_f i
      r ← p.response_header
      r' ← note_record w.first_packet s r
      some (record w {
        pair_f =
            modify i
              (λ (p : Pair).
                end_response last s first r'.hdlen (record p { response_header = some r' }))
              w.pair_f;
        first_packet = false;
        lb_sec = if last then (last_byte s w.lb_sec w.lb_usec).0 else w.lb_sec;
        lb_usec = if last then (last_byte s w.lb_sec w.lb_usec).1 else w.lb_usec;
      })

abbrev pub note_response :
    Option Fin → (n : ℕ) → Seq → (rest : List Seq) → ResponseWalk → Option ResponseWalk
note_response fin n s rest w = note_on fin n s rest w.found_pair w

-- A record that is not new, before any response or processed.
abbrev pub is_passed : Seq → Option (ℕ × ℕ) → Bool
is_passed s none = true
is_passed s (some found) = s.processed

-- The response of a record on the pair that waits for it.
unfoldable pub answer_pair : MessageParser → Seq → Packet → Pair → Pair
answer_pair parser s p pair =
    add_response (parser.get_response p p.tcp_ack)
      (record pair { rsp_fb_sec = s.cap_sec; rsp_fb_usec = s.cap_usec })

-- The walk with the pair of a new response, `none` where the function returns.
abbrev pub place_response :
    MessageParser → Seq → Packet → Search → ResponseWalk → Option ResponseWalk
place_response parser s p ended w = none
place_response parser s p (stopped i) w = some (record w { tmp = i })
place_response parser s p (matched i) w = some (record w {
  pair_f = modify i (answer_pair parser s p) w.pair_f;
  tmp = i;
  found_pair = some (s.seq, i);
  first_packet = true;
})

-- The walk behind the body of the loop, and whether the function returns.
unfoldable pub response_step :
    MessageParser
    → Option Fin
    → (n : ℕ) → Seq
    → (rest : List Seq) → ResponseWalk
    → Option (ResponseWalk × Bool)
unfolding is_new find_pair note_on answer_pair
response_step parser fin n s rest w =
    if is_new rsp s
    then (do
      p ← s.pkt
      search ← find_pair p.tcp_ack w.tmp (drop w.tmp w.pair_f)
      elim (place_response parser s p search w) [
        | none ↦ some (w, true)
        | some placed ↦ do w' ← note_response fin n s rest placed; some (w', false)
      ])
    else if is_passed s w.found_pair
    then some (w, false)
    else (do w' ← note_response fin n s rest w; some (w', false))

-- The records, the walk and the value that is returned.
unfoldable pub find_responses :
    MessageParser
    → Option Fin
    → (n : ℕ) → List Seq
    → ResponseWalk
    → Option (List Seq × ResponseWalk × ℕ)
unfolding is_within is_new response_step
find_responses parser fin n [] w = some ([], w, 0)
find_responses parser fin n (s ∷ seqs) w =
    if is_within fin s
    then (do
      (w', returns) ← response_step parser fin n s seqs w
      elim returns [
        | true ↦ some (marked rsp s ∷ seqs, w', 1)
        | false ↦ do
          (seqs', w'', code) ← find_responses parser fin (suc n) seqs w'
          some (marked rsp s ∷ seqs', w'', code)
      ])
    else some (s ∷ seqs, w, 0)
