-- ===== src/Extract/Answers.antt =====
-- The second step of `Protocol::extractPair`, c-http-sniffer/src/protocols/protocol.cpp, keeps the
-- responses of a flow with their requests.

use mathlib.Core.Option.{some-injective}
use mathlib.Core.Path.{transport}
use monitoring_tool.Prelude.{
  ℕ, suc, ◌≡◌, refl, sym, ap, ◌∙◌, Bool, true, false, Option, none, some, List, [], ◌∷◌, inl, inr,
  All, Bool-cases, get_elem?, drop,
}
use monitoring_tool.Prelude.Partial.{◌>>=◌, Holds, Holds->>=, Holds-some, Holds-elim}
use monitoring_tool.Packet.{Packet, rsp}
use monitoring_tool.Order.{Seq}
use monitoring_tool.Extract.Records.{Request, Response, Pair, MessageParser, add_response}
use monitoring_tool.Extract.Fins.{Fin}
use monitoring_tool.Extract.Requests.{is_within, is_new}
use monitoring_tool.Extract.Responses.{
  Search, ended, stopped, matched, find_pair, modify, note_record, end_response, is_response_end,
  answer_pair, ResponseWalk, note_on, note_response, place_response, is_passed, response_step,
  find_responses,
}
use monitoring_tool.Extract.Matches.{
  IsMatch, IsPairMatch, IsFor, find_pair-IsFor, All-modify, end_response-request, note_record-hdlen,
  IsMatch-hdlen, get_elem?-drop, IsPairMatch-of,
}

add_response-none :
    (rsp : Response) (p : Pair)
    → p.response_header ≡ none
    → add_response rsp p ≡ record p { response_header = some rsp }
add_response-none rsp p e =
    ap
      (λ (o : Option Response). elim o as (λ x. Pair) [
        | none ↦ record p { response_header = some rsp }
        | some r ↦ p
      ])
      e

module _ (parser : MessageParser) (Q : Seq → Type 0) where
  -- A pair whose response is noted once more.
  noted-IsPairMatch :
      (last : Bool) (s : Seq) (first : ℕ) (p p' : Pair) (r r' : Response)
      → p ≡ p'
      → p'.response_header ≡ some r
      → r'.hdlen ≡ r.hdlen
      → IsPairMatch parser Q p
      → IsPairMatch parser Q
          (end_response last s first r'.hdlen (record p { response_header = some r' }))
  noted-IsPairMatch last s first p p' r r' e f hdlen h =
      let noted = record p { response_header = some r' } in
      let (request, response) = end_response-request last s first r'.hdlen noted in
      let old : IsMatch parser Q p.request_header (some r) =
        transport (ap (IsMatch parser Q p.request_header) (ap Pair.response_header e ∙ f)) h in
      IsPairMatch-of parser Q (end_response last s first r'.hdlen noted) request response
        (IsMatch-hdlen parser Q p.request_header r r' hdlen old)

  note_pair-IsPairMatch :
      (last : Bool) (s : Seq) (first i : ℕ) (w : ResponseWalk) (p : Pair) (r r' : Response)
      → get_elem? w.pair_f i ≡ some p
      → p.response_header ≡ some r
      → r'.hdlen ≡ r.hdlen
      → All (IsPairMatch parser Q) w.pair_f
      → All (IsPairMatch parser Q) (
          modify i
            (λ (p : Pair).
              end_response last s first r'.hdlen (record p { response_header = some r' }))
            w.pair_f)
  note_pair-IsPairMatch last s first i w p r r' at response hdlen h =
      All-modify (IsPairMatch parser Q) i _ w.pair_f h (λ q here m.
        noted-IsPairMatch last s first q p r r' (some-injective _ _ (sym here ∙ at)) response hdlen
          m)

  -- All the pairs of a walk match.
  abbrev MatchesAll : ResponseWalk → Type 0
  MatchesAll w = All (IsPairMatch parser Q) w.pair_f

  note_on-matched :
      (fin : Option Fin) (n : ℕ) (s : Seq) (rest : List Seq) (found : Option (ℕ × ℕ))
      (w : ResponseWalk)
      → MatchesAll w
      → Holds MatchesAll (note_on fin n s rest found w)
  unfolding note_on
  note_on-matched fin n s rest none w h = h
  note_on-matched fin n s rest (some (first, i)) w h =
      Holds->>= MatchesAll (get_elem? w.pair_f i) _ (λ p at.
        Holds->>= MatchesAll p.response_header _ (λ r response.
          Holds->>= MatchesAll (note_record w.first_packet s r) _ (λ r' noted.
            note_pair-IsPairMatch (is_response_end fin n rest) s first i w p r r' at response
              (Holds-some (λ (r' : Response). r'.hdlen ≡ r.hdlen) noted
                (note_record-hdlen w.first_packet s r))
              h)))

  -- The pair that waits for the response of a record with `Q`.
  answer_pair-IsPairMatch :
      (s : Seq) (packet : Packet) (p q : Pair) (r : Request)
      → Q s
      → s.pkt ≡ some packet
      → p ≡ q
      → q.request_header ≡ some r
      → q.response_header ≡ none
      → r.nxt_seq ≡ packet.tcp_ack
      → IsPairMatch parser Q (answer_pair parser s packet p)
  unfolding answer_pair
  answer_pair-IsPairMatch s packet p q r there carries e asked unanswered ends =
      let response = parser.get_response packet packet.tcp_ack in
      let opened = record p { rsp_fb_sec = s.cap_sec; rsp_fb_usec = s.cap_usec } in
      let answered = add_response-none response opened (ap Pair.response_header e ∙ unanswered) in
      IsPairMatch-of parser Q (answer_pair parser s packet p)
        (ap Pair.request_header answered ∙ (ap Pair.request_header e ∙ asked))
        (ap Pair.response_header answered)
        (record {
          record_of = s;
          packet = packet;
          is_there = there;
          carries = carries;
          acknowledges = sym ends;
          parsed = refl;
        })

  place_response-matched :
      (s : Seq) (packet : Packet) (search : Search) (w : ResponseWalk)
      → Q s
      → s.pkt ≡ some packet
      → IsFor packet.tcp_ack w.tmp (drop w.tmp w.pair_f) search
      → MatchesAll w
      → Holds MatchesAll (place_response parser s packet search w)
  place_response-matched s packet ended w there carries found h = tt
  place_response-matched s packet (stopped i) w there carries found h = h
  place_response-matched s packet (matched i) w there carries (j, e, waits) h =
      All-modify (IsPairMatch parser Q) i (answer_pair parser s packet) w.pair_f h (λ p here m.
        let at : some p ≡ some waits.pair =
          sym here
          ∙ (ap (get_elem? w.pair_f) e ∙ (sym (get_elem?-drop w.tmp j w.pair_f) ∙ waits.at)) in
        answer_pair-IsPairMatch s packet p waits.pair waits.request there carries
          (some-injective _ _ at) waits.asked waits.unanswered waits.ends)

  abbrev MatchesStep : ResponseWalk × Bool → Type 0
  MatchesStep r = MatchesAll r.0

  go_on-matched :
      (fin : Option Fin) (n : ℕ) (s : Seq) (rest : List Seq) (found : Option (ℕ × ℕ))
      (w : ResponseWalk)
      → MatchesAll w
      → Holds MatchesStep (note_on fin n s rest found w >>= (λ w'. some (w', false)))
  go_on-matched fin n s rest found w h =
      Holds->>= MatchesStep (note_on fin n s rest found w) _
        (λ w' e. Holds-some MatchesAll e (note_on-matched fin n s rest found w h))

  placed-matched :
      (fin : Option Fin) (n : ℕ) (s : Seq) (rest : List Seq) (w : ResponseWalk)
      (o : Option ResponseWalk)
      → MatchesAll w
      → Holds MatchesAll o
      → Holds MatchesStep (elim o as (λ x. Option (ResponseWalk × Bool)) [
        | none ↦ some (w, true)
        | some placed ↦ note_response fin n s rest placed >>= (λ w'. some (w', false))
      ])
  placed-matched fin n s rest w none h g = h
  placed-matched fin n s rest w (some placed) h g =
      go_on-matched fin n s rest placed.found_pair placed g

  response_step-matched :
      (fin : Option Fin) (n : ℕ) (s : Seq) (rest : List Seq) (w : ResponseWalk)
      → Q s
      → MatchesAll w
      → Holds MatchesStep (response_step parser fin n s rest w)
  unfolding response_step
  response_step-matched fin n s rest w there h =
      let pairs = drop w.tmp w.pair_f in
      elim (Bool-cases (is_new rsp s)) [
        | inl new ↦ rw new (
            Holds->>= MatchesStep s.pkt _ (λ p carries.
              Holds->>= MatchesStep (find_pair p.tcp_ack w.tmp pairs) _ (λ search found.
                placed-matched fin n s rest w (place_response parser s p search w) h (
                  place_response-matched s p search w there carries
                    (Holds-some (IsFor p.tcp_ack w.tmp pairs) found
                      (find_pair-IsFor p.tcp_ack w.tmp pairs))
                    h))))
        | inr old ↦ elim (Bool-cases (is_passed s w.found_pair)) [
          | inl passed ↦ rw (old, passed) h
          | inr other ↦ rw (old, other) (go_on-matched fin n s rest w.found_pair w h)
        ]
      ]

  abbrev pub MatchesEnd : List Seq × ResponseWalk × ℕ → Type 0
  MatchesEnd r = All (IsPairMatch parser Q) r.1.pair_f

  pub find_responses-matched :
      (fin : Option Fin) (n : ℕ) (seqs : List Seq) (w : ResponseWalk)
      → All Q seqs
      → All (IsPairMatch parser Q) w.pair_f
      → Holds MatchesEnd (find_responses parser fin n seqs w)
  unfolding find_responses
  find_responses-matched fin n [] w there h = h
  find_responses-matched fin n (s ∷ seqs) w there h = elim (Bool-cases (is_within fin s)) [
    | inr beyond ↦ rw beyond h
    | inl within ↦ rw within (
        Holds->>= MatchesEnd (response_step parser fin n s seqs w) _ (λ a e.
          let stepped = Holds-some MatchesStep e (response_step-matched fin n s seqs w there.0 h) in
          Holds-elim MatchesEnd a.1 _ _ stepped (
            Holds->>= MatchesEnd (find_responses parser fin (suc n) seqs a.0) _ (λ r f.
              Holds-some MatchesEnd f
                (find_responses-matched fin (suc n) seqs a.0 there.1 stepped)))))
  ]
