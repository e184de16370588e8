-- ===== src/Extract/Matches.antt =====
-- Which response `Protocol::extractPair` of c-http-sniffer/src/protocols/protocol.cpp gives to which
-- request.

use mathlib.Core.Path.{transport}
use monitoring_tool.Prelude.{
  ℕ, zero, suc, ◌+◌, ◌≡◌, refl, sym, ap, ◌∙◌, Bool, true, false, not, ◌&&◌, Option, none, some,
  List, [], ◌∷◌, leb, ◌==◌, if◌then◌else◌, inl, inr, arith, All, Bool-cases, get_elem?, drop,
  ==_iff,
}
use monitoring_tool.Prelude.Partial.{Holds, Holds->>=}
use monitoring_tool.Util.{decimal}
use monitoring_tool.Packet.{Packet}
use monitoring_tool.Order.{Seq}
use monitoring_tool.Extract.Records.{Request, Response, Pair, MessageParser}
use monitoring_tool.Extract.Responses.{
  Search, ended, stopped, matched, is_open, find_pair, modify, append_text, note_record,
  end_response,
}

-- The response is parsed from the packet of a record with `Q`, which acknowledges the end of the request.
pub record IsAnswer (parser : MessageParser) (Q : Seq → Type 0) (request : Request)
    (response : Response) : Type 0 where
  pub record_of : Seq
  pub packet : Packet
  pub is_there : Q record_of
  pub carries : record_of.pkt ≡ some packet
  pub acknowledges : packet.tcp_ack ≡ request.nxt_seq
  pub parsed : response.hdlen ≡ (parser.get_response packet packet.tcp_ack).hdlen

abbrev pub IsMatch : MessageParser → (Seq → Type 0) → Option Request → Option Response → Type 0
IsMatch parser Q request none = Unit
IsMatch parser Q none (some response) = ⊥
IsMatch parser Q (some request) (some response) = IsAnswer parser Q request response

abbrev pub IsPairMatch : MessageParser → (Seq → Type 0) → Pair → Type 0
IsPairMatch parser Q p = IsMatch parser Q p.request_header p.response_header

-- The search stops at a pair without a response whose request ends at `ack`.
pub record Waits (ack i : ℕ) (pairs : List Pair) : Type 0 where
  pub pair : Pair
  pub request : Request
  pub at : get_elem? pairs i ≡ some pair
  pub asked : pair.request_header ≡ some request
  pub unanswered : pair.response_header ≡ none
  pub ends : request.nxt_seq ≡ ack

abbrev pub IsFor : (ack tmp : ℕ) → List Pair → Search → Type 0
IsFor ack tmp pairs ended = Unit
IsFor ack tmp pairs (stopped i) = Unit
IsFor ack tmp pairs (matched i) = (j : ℕ) × (i ≡ tmp + j) × Waits ack j pairs

IsFor-cons :
    (ack tmp : ℕ) (p : Pair) (pairs : List Pair) (x : Search)
    → IsFor ack (suc tmp) pairs x
    → IsFor ack tmp (p ∷ pairs) x
IsFor-cons ack tmp p pairs ended h = tt
IsFor-cons ack tmp p pairs (stopped i) h = tt
IsFor-cons ack tmp p pairs (matched i) (j, e, w) = (
  suc j,
  omega (arith, e),
  record {
    pair = w.pair;
    request = w.request;
    at = w.at;
    asked = w.asked;
    unanswered = w.unanswered;
    ends = w.ends;
  },
)

IsFor-later :
    (ack tmp : ℕ) (p : Pair) (pairs : List Pair) (later : Option Search)
    → Holds (IsFor ack (suc tmp) pairs) later
    → Holds (IsFor ack tmp (p ∷ pairs)) later
IsFor-later ack tmp p pairs none h = tt
IsFor-later ack tmp p pairs (some x) h = IsFor-cons ack tmp p pairs x h

is_open-none : (o : Option Response) → is_open o ≡ true → o ≡ none
is_open-none none h = refl
is_open-none (some r) h = absurd (ground arith)

and-both : (a b : Bool) → a && b ≡ true → (a ≡ true) × (b ≡ true)
and-both true b h = (refl, h)
and-both false b h = absurd (ground arith)

-- The match of a pair from its two messages.
pub IsPairMatch-of :
    (parser : MessageParser) (Q : Seq → Type 0) (p : Pair) {request : Option Request}
    {response : Option Response}
    → p.request_header ≡ request
    → p.response_header ≡ response
    → IsMatch parser Q request response
    → IsPairMatch parser Q p
IsPairMatch-of parser Q p {response = response} e f h =
    transport
      (ap (λ (a : Option Request). IsMatch parser Q a response) (sym e)
        ∙ ap (IsMatch parser Q p.request_header) (sym f))
      h

find_pair_here :
    (ack tmp : ℕ) (p : Pair) (pairs : List Pair) (r : Request)
    → p.request_header ≡ some r
    → is_open p.response_header && r.nxt_seq == ack ≡ true
    → IsFor ack tmp (p ∷ pairs) (matched tmp)
find_pair_here ack tmp p pairs r e h =
    let (open_pair, ends) = and-both (is_open p.response_header) (r.nxt_seq == ack) h in
    (
      0,
      omega arith,
      record {
        pair = p;
        request = r;
        at = refl;
        asked = e;
        unanswered = is_open-none p.response_header open_pair;
        ends = (==_iff r.nxt_seq ack).0 ends;
      },
    )

find_pair_case :
    (ack tmp : ℕ) (p : Pair) (pairs : List Pair) (o : Option Request) (later : Option Search)
    → p.request_header ≡ o
    → Holds (IsFor ack (suc tmp) pairs) later
    → Holds (IsFor ack tmp (p ∷ pairs)) (elim o as (λ x. Option Search) [
      | none ↦ none
      | some r ↦
          if not (leb r.nxt_seq ack)
          then some (stopped tmp)
          else if is_open p.response_header && r.nxt_seq == ack
          then some (matched tmp)
          else later
    ])
find_pair_case ack tmp p pairs none later e h = tt
find_pair_case ack tmp p pairs (some r) later e h = elim (Bool-cases (leb r.nxt_seq ack)) [
  | inr beyond ↦ rw beyond tt
  | inl within ↦ elim (Bool-cases (is_open p.response_header && r.nxt_seq == ack)) [
    | inl here ↦ rw (within, here) (find_pair_here ack tmp p pairs r e here)
    | inr other ↦ rw (within, other) (IsFor-later ack tmp p pairs later h)
  ]
]

pub find_pair-IsFor :
    (ack tmp : ℕ) (pairs : List Pair) → Holds (IsFor ack tmp pairs) (find_pair ack tmp pairs)
unfolding find_pair
find_pair-IsFor ack tmp [] = tt
find_pair-IsFor ack tmp (p ∷ pairs) =
    find_pair_case ack tmp p pairs p.request_header (find_pair ack (suc tmp) pairs) refl
      (find_pair-IsFor ack (suc tmp) pairs)

pub All-modify :
    (P : Pair → Type 0) (i : ℕ) (f : Pair → Pair) (pairs : List Pair)
    → All P pairs
    → ((p : Pair) → get_elem? pairs i ≡ some p → P p → P (f p))
    → All P (modify i f pairs)
All-modify P i f [] h k = tt
All-modify P zero f (p ∷ pairs) h k = (k p refl h.0, h.1)
All-modify P (suc i) f (p ∷ pairs) h k = (h.0, All-modify P i f pairs h.1 k)

pub end_response-request :
    (last : Bool) (s : Seq) (first hdlen : ℕ) (p : Pair)
    → ((end_response last s first hdlen p).request_header ≡ p.request_header)
      × ((end_response last s first hdlen p).response_header ≡ p.response_header)
unfolding end_response
end_response-request false s first hdlen p = (refl, refl)
end_response-request true s first hdlen p = elim (Bool-cases (s.nxt_seq == 0)) [
  | inl e ↦ rw e (refl, refl)
  | inr e ↦ rw e (refl, refl)
]

pub note_record-hdlen :
    (first_packet : Bool) (s : Seq) (r : Response)
    → Holds (λ (r' : Response). r'.hdlen ≡ r.hdlen) (note_record first_packet s r)
unfolding note_record
note_record-hdlen first_packet s r =
    let kept = λ (r' : Response). r'.hdlen ≡ r.hdlen in
    let text = if first_packet then decimal 10 s.size else (b',' ∷ decimal 10 s.size) in
    Holds->>= kept (append_text r.time (b',' ∷ decimal 20 s.cap_usec)) _
      (λ time e. Holds->>= kept (append_text r.size text) _ (λ size f. refl))

pub IsMatch-hdlen :
    (parser : MessageParser) (Q : Seq → Type 0) (request : Option Request) (r r' : Response)
    → r'.hdlen ≡ r.hdlen
    → IsMatch parser Q request (some r)
    → IsMatch parser Q request (some r')
IsMatch-hdlen parser Q none r r' e h = h
IsMatch-hdlen parser Q (some request) r r' e h = record {
  record_of = h.record_of;
  packet = h.packet;
  is_there = h.is_there;
  carries = h.carries;
  acknowledges = h.acknowledges;
  parsed = e ∙ h.parsed;
}

pub get_elem?-drop :
    (n j : ℕ) (pairs : List Pair) → get_elem? (drop n pairs) j ≡ get_elem? pairs (n + j)
get_elem?-drop zero j pairs = ap (get_elem? pairs) (omega arith)
get_elem?-drop (suc n) j [] = refl
get_elem?-drop (suc n) j (p ∷ pairs) =
    let shift : suc (n + j) ≡ suc n + j = omega arith in
    get_elem?-drop n j pairs ∙ ap (get_elem? (p ∷ pairs)) shift
