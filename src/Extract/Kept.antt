-- ===== src/Extract/Kept.antt =====
-- `Protocol::extractPair` of c-http-sniffer/src/protocols/protocol.cpp keeps each response with the
-- request that it answers.

use monitoring_tool.Prelude.{
  ℕ, suc, ◌≡◌, sym, ap, Bool, true, false, Option, none, some, List, [], ◌∷◌, ◌++◌, inl, inr, All,
  All-append, All-append_left, All-middle, Bool-cases, Option-cases, ◌==◌,
}
use mathlib.Core.Path.{transport}
use monitoring_tool.Prelude.Partial.{Holds, Holds->>=, Holds-some}
use monitoring_tool.Packet.{Packet, req}
use monitoring_tool.Order.{Seq}
use monitoring_tool.Extract.Records.{Pair, Flow, MessageParser}
use monitoring_tool.Extract.Fins.{Fin, fin_seq, set_first_byte}
use monitoring_tool.Extract.Requests.{
  is_within, is_new, is_request_end, is_skipped, RequestWalk, chain, request_pair, open_pair,
  set_request_length, end_request, request_step, find_requests,
}
use monitoring_tool.Extract.Responses.{ResponseWalk, find_responses}
use monitoring_tool.Extract.Flows.{request_start, response_start, add_responses, extract_pair}
use monitoring_tool.Extract.NewPairs.{walk_pairs}
use monitoring_tool.Extract.Matches.{IsPairMatch}
use monitoring_tool.Extract.Answers.{find_responses-matched}
use monitoring_tool.Extract.Again.{Holds-count, set_first_byte-dst}

module _ (parser : MessageParser) (Q : Seq → Type 0) where
  abbrev WalkMatches : RequestWalk → Type 0
  WalkMatches w = All (IsPairMatch parser Q) (walk_pairs w)

  set_request_length-IsPairMatch :
      (s : Seq) (first : ℕ) (p : Pair)
      → IsPairMatch parser Q p
      → IsPairMatch parser Q (set_request_length s first p)
  set_request_length-IsPairMatch s first p h = elim (Bool-cases (s.nxt_seq == 0)) [
    | inl e ↦ rw e h
    | inr e ↦ rw e h
  ]

  end_request-matched :
      (last : Bool) (s : Seq) (w : RequestWalk) → WalkMatches w → WalkMatches (end_request last s w)
  unfolding end_request
  end_request-matched false s w h = h
  end_request-matched true s w h = elim (Option-cases w.new_pair) [
    | inl e ↦ rw e (
        transport (ap (λ (o : Option (ℕ × Pair)). All (IsPairMatch parser Q) (chain w.pair_f o)) e)
          h)
    | inr (pair, e) ↦
        let chained : All (IsPairMatch parser Q) (w.pair_f ++ pair.1 ∷ []) =
          transport
            (ap (λ (o : Option (ℕ × Pair)). All (IsPairMatch parser Q) (chain w.pair_f o)) e) h in
        rw e (
          All-append (IsPairMatch parser Q) w.pair_f (set_request_length s pair.0 pair.1 ∷ [])
            (All-append_left (IsPairMatch parser Q) w.pair_f (pair.1 ∷ []) chained)
            (
              set_request_length-IsPairMatch s pair.0 pair.1
                  (All-middle (IsPairMatch parser Q) w.pair_f pair.1 [] chained),
              tt,
            ))
  ]

  open_pair-matched :
      (s : Seq) (o : Option Packet) (w : RequestWalk)
      → WalkMatches w
      → WalkMatches (open_pair parser s o w)
  unfolding request_pair
  open_pair-matched s none w h = h
  open_pair-matched s (some p) w h =
      All-append (IsPairMatch parser Q) (walk_pairs w) (request_pair parser s p ∷ []) h (tt, tt)

  request_step-matched :
      (fin : Option Fin) (closed : Bool) (n : ℕ) (s : Seq) (rest : List Seq) (w : RequestWalk)
      → WalkMatches w
      → Holds WalkMatches (request_step parser fin closed n s rest w)
  unfolding request_step
  request_step-matched fin closed n s rest w h = elim (Bool-cases (is_new req s)) [
    | inl new ↦ rw new (
        Holds->>= WalkMatches (is_request_end fin closed n rest) _ (λ last e.
          end_request-matched last s (open_pair parser s s.pkt w) (open_pair-matched s s.pkt w h)))
    | inr old ↦ elim (Bool-cases (is_skipped s w.new_pair)) [
      | inl skipped ↦ rw (old, skipped) h
      | inr other ↦
          rw (old, other)
            (Holds->>= WalkMatches (is_request_end fin closed n rest) _
              (λ last e. end_request-matched last s w h))
    ]
  ]

  abbrev RequestsMatch : List Seq × RequestWalk → Type 0
  RequestsMatch r = WalkMatches r.1

  find_requests-matched :
      (fin : Option Fin) (closed : Bool) (n : ℕ) (seqs : List Seq) (w : RequestWalk)
      → WalkMatches w
      → Holds RequestsMatch (find_requests parser fin closed n seqs w)
  unfolding find_requests
  find_requests-matched fin closed n [] w h = h
  find_requests-matched fin closed n (s ∷ seqs) w h = elim (Bool-cases (is_within fin s)) [
    | inr beyond ↦ rw beyond h
    | inl within ↦ rw within (
        Holds->>= RequestsMatch (request_step parser fin closed n s seqs w) _ (λ v e.
          let stepped = Holds-some WalkMatches e (request_step-matched fin closed n s seqs w h) in
          Holds->>= RequestsMatch (find_requests parser fin closed (suc n) seqs v) _ (λ r f.
            Holds-some RequestsMatch f (find_requests-matched fin closed (suc n) seqs v stepped))))
  ]

  abbrev FlowMatches : Flow × ℕ → Type 0
  FlowMatches r = All (IsPairMatch parser Q) r.0.pair_f

  add_responses-matched :
      (fin : Option Fin) (f : Flow) (src : List Seq) (w : RequestWalk)
      → All Q f.dst
      → WalkMatches w
      → Holds FlowMatches (add_responses parser fin f src w)
  unfolding add_responses
  add_responses-matched fin f src w there h =
      let start = response_start w in
      Holds-count FlowMatches w.reqn _ _ h (
        Holds->>= FlowMatches (find_responses parser fin 0 f.dst start) _ (λ r e.
          Holds-some (λ (r : List Seq × ResponseWalk × ℕ). All (IsPairMatch parser Q) r.1.pair_f) e
            (find_responses-matched parser Q fin 0 f.dst start there h)))

  extract_pair-Holds :
      (f : Flow) (closed : Bool)
      → All Q f.dst
      → All (IsPairMatch parser Q) f.pair_f
      → Holds FlowMatches (extract_pair parser f closed)
  unfolding extract_pair
  extract_pair-Holds f closed there h =
      let fin = fin_seq f.src f.dst in
      Holds->>= FlowMatches (find_requests parser fin closed 0 f.src (request_start f)) _ (λ r e.
        add_responses-matched fin (set_first_byte f) r.0 r.1
          (transport (ap (All Q) (sym (set_first_byte-dst f))) there)
          (Holds-some RequestsMatch e
            (find_requests-matched fin closed 0 f.src (request_start f) h)))

-- Where every response in the chain of the flow's pairs answers its request, `extractPair` keeps it so: a
-- response is parsed from the packet of a record with `Q`, and this packet's acknowledgement number is
-- the number at which the request of its pair ends. `Q` is whatever holds of all the records from the
-- server.
pub extract_pair-IsPairMatch :
    (parser : MessageParser) (Q : Seq → Type 0) (f g : Flow) (closed : Bool) (code : ℕ)
    → All Q f.dst
    → All (IsPairMatch parser Q) f.pair_f
    → extract_pair parser f closed ≡ some (g, code)
    → All (IsPairMatch parser Q) g.pair_f
extract_pair-IsPairMatch parser Q f g closed code there h e =
    Holds-some (λ (r : Flow × ℕ). All (IsPairMatch parser Q) r.0.pair_f) e
      (extract_pair-Holds parser Q f closed there h)
