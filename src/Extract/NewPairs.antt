-- ===== src/Extract/NewPairs.antt =====
-- The pairs that the requests of a flow make, the first step of `Protocol::extractPair` in
-- c-http-sniffer/src/protocols/protocol.cpp.

use mathlib.Core.List.{append-nil, append_assoc}
use monitoring_tool.Prelude.{
  ℕ, suc, ◌+◌, ◌≡◌, refl, sym, ap, ◌∙◌, Bool, true, false, ◌==◌, Option, none, some, List, [], ◌∷◌,
  ◌++◌, if◌then◌else◌, inl, inr, arith, Bool-cases, Option-cases, length, length-append,
}
use monitoring_tool.Packet.{Packet, req}
use monitoring_tool.Order.{Seq}
use monitoring_tool.Extract.Records.{Request, Pair, MessageParser}
use monitoring_tool.Extract.Fins.{Fin}
use monitoring_tool.Extract.Requests.{
  is_within, is_new, is_request_end, RequestWalk, chain, request_pair, open_pair,
  set_request_length, end_request, marked, is_skipped, request_step, find_requests,
}

-- What a pair keeps of its request: the header and the time of its first byte.
abbrev pub request_part : Pair → Option Request × ℕ × ℕ
request_part p = (p.request_header, p.req_fb_sec, p.req_fb_usec)

abbrev pub request_parts : List Pair → List (Option Request × ℕ × ℕ)
request_parts [] = []
request_parts (p ∷ pairs) = request_part p ∷ request_parts pairs

pub request_parts-append :
    (ps qs : List Pair) → request_parts (ps ++ qs) ≡ request_parts ps ++ request_parts qs
request_parts-append [] qs = refl
request_parts-append (p ∷ ps) qs =
    ap (λ (l : List (Option Request × ℕ × ℕ)). request_part p ∷ l) (request_parts-append ps qs)

-- The pair of a record.
abbrev pub pairs_of : MessageParser → Seq → Option Packet → List Pair
pairs_of parser s none = []
pairs_of parser s (some p) = request_pair parser s p ∷ []

abbrev pub new_pair_of : MessageParser → Seq → List Pair
new_pair_of parser s = if is_new req s then pairs_of parser s s.pkt else []

-- The pairs of the new requests before the FIN record, in the order of the records.
abbrev pub new_pairs : MessageParser → Option Fin → List Seq → List Pair
new_pairs parser fin [] = []
new_pairs parser fin (s ∷ seqs) =
    let later = new_pairs parser fin seqs in
    if is_within fin s then new_pair_of parser s ++ later else []

-- The records with those that are new and before the FIN record processed.
abbrev pub mark_requests : Option Fin → List Seq → List Seq
mark_requests fin [] = []
mark_requests fin (s ∷ seqs) =
    let later = mark_requests fin seqs in if is_within fin s then marked req s ∷ later else s ∷ seqs

-- The code does not read the time of a record that is not there.
abbrev pub IsSafe : Option Fin → Bool → Type 0
IsSafe fin closed =
    (n : ℕ) (rest : List Seq) → (b : Bool) × (is_request_end fin closed n rest ≡ some b)

pub closed-IsSafe : (fin : Option Fin) → IsSafe fin true
unfolding is_request_end
closed-IsSafe none n [] = (_, refl)
closed-IsSafe none n (t ∷ ts) = (_, refl)
closed-IsSafe (some fin) n [] = (_, refl)
closed-IsSafe (some fin) n (t ∷ ts) = (_, refl)

pub no_fin-IsSafe : (closed : Bool) → IsSafe none closed
unfolding is_request_end
no_fin-IsSafe closed n [] = (_, refl)
no_fin-IsSafe closed n (t ∷ ts) = (_, refl)

abbrev pub walk_pairs : RequestWalk → List Pair
walk_pairs w = chain w.pair_f w.new_pair

set_request_length-part :
    (s : Seq) (first : ℕ) (p : Pair) → request_part (set_request_length s first p) ≡ request_part p
set_request_length-part s first p = elim (Bool-cases (s.nxt_seq == 0)) [
  | inl e ↦ rw e refl
  | inr e ↦ rw e refl
]

last_part :
    (pairs : List Pair) (s : Seq) (first : ℕ) (p : Pair)
    → request_parts (pairs ++ set_request_length s first p ∷ []) ≡ request_parts (pairs ++ p ∷ [])
last_part pairs s first p =
    request_parts-append pairs (set_request_length s first p ∷ [])
    ∙ (ap (λ (x : Option Request × ℕ × ℕ). request_parts pairs ++ x ∷ [])
          (set_request_length-part s first p)
        ∙ sym (request_parts-append pairs (p ∷ [])))

pub end_request-parts :
    (last : Bool) (s : Seq) (w : RequestWalk)
    → (request_parts (walk_pairs (end_request last s w)) ≡ request_parts (walk_pairs w))
      × ((end_request last s w).reqn ≡ w.reqn)
unfolding end_request
end_request-parts false s w = (refl, refl)
end_request-parts true s w = elim (Option-cases w.new_pair) [
  | inl e ↦ rw e (refl, refl)
  | inr (pair, e) ↦ rw e (last_part w.pair_f s pair.0 pair.1, refl)
]

-- What a step makes of the walk: the pair of its record behind the others, and the count.
abbrev pub IsMade : MessageParser → Seq → (before after : RequestWalk) → Type 0
IsMade parser s w w' =
    (request_parts (walk_pairs w')
      ≡ request_parts (walk_pairs w) ++ request_parts (new_pair_of parser s))
    × (w'.reqn ≡ w.reqn + length (new_pair_of parser s))

open_pair-IsMade :
    (parser : MessageParser) (s : Seq) (o : Option Packet) (last : Bool) (w : RequestWalk)
    → (request_parts (walk_pairs (end_request last s (open_pair parser s o w)))
        ≡ request_parts (walk_pairs w) ++ request_parts (pairs_of parser s o))
      × ((end_request last s (open_pair parser s o w)).reqn ≡ w.reqn + length (pairs_of parser s o))
open_pair-IsMade parser s none last w =
    let (e, f) = end_request-parts last s w in (e ∙ sym (append-nil _), omega (arith, f))
open_pair-IsMade parser s (some p) last w =
    let (e, f) = end_request-parts last s (open_pair parser s (some p) w) in
    (e ∙ request_parts-append (walk_pairs w) (request_pair parser s p ∷ []), f)

request_step-IsMade :
    (parser : MessageParser) (fin : Option Fin) (closed : Bool) (n : ℕ) (s : Seq) (rest : List Seq)
    (w : RequestWalk)
    → IsSafe fin closed
    → (w' : RequestWalk) × (request_step parser fin closed n s rest w ≡ some w')
      × IsMade parser s w w'
unfolding request_step
request_step-IsMade parser fin closed n s rest w safe =
    let (last, e) = safe n rest in
    let (f, g) = end_request-parts last s w in
    elim (Bool-cases (is_new req s)) [
      | inl new ↦ rw (new, e) (_, refl, open_pair-IsMade parser s s.pkt last w)
      | inr old ↦ elim (Bool-cases (is_skipped s w.new_pair)) [
        | inl skipped ↦ rw (old, skipped) (w, refl, (sym (append-nil _), omega arith))
        | inr other ↦
            rw (old, other, e)
              (end_request last s w, refl, (f ∙ sym (append-nil _), omega (arith, g)))
      ]
    ]

-- What the walk makes of its start, by the pairs of the new requests.
abbrev pub IsFound : MessageParser → Option Fin → List Seq → (before after : RequestWalk) → Type 0
IsFound parser fin seqs w w' =
    (request_parts (walk_pairs w')
      ≡ request_parts (walk_pairs w) ++ request_parts (new_pairs parser fin seqs))
    × (w'.reqn ≡ w.reqn + length (new_pairs parser fin seqs))

IsMade-IsFound :
    (parser : MessageParser) (fin : Option Fin) (s : Seq) (seqs : List Seq) (w v u : RequestWalk)
    → is_within fin s ≡ true
    → IsMade parser s w v
    → IsFound parser fin seqs v u
    → IsFound parser fin (s ∷ seqs) w u
IsMade-IsFound parser fin s seqs w v u within (e, f) (g, h) =
    let now = new_pair_of parser s in
    let later = new_pairs parser fin seqs in
    rw within (
      g
          ∙ (ap (λ (l : List (Option Request × ℕ × ℕ)). l ++ request_parts later) e
              ∙ (append_assoc (request_parts (walk_pairs w)) (request_parts now)
                    (request_parts later)
                  ∙ ap (λ (l : List (Option Request × ℕ × ℕ)). request_parts (walk_pairs w) ++ l)
                      (sym (request_parts-append now later)))),
      omega (arith, f, h, length-append now later),
    )

-- Where the code does not read the time of a record that is not there, the walk over the records ends,
-- with exactly the new requests before the FIN record processed and no other change of a record. The
-- chain has, behind the pairs that it had, one pair for each of these requests in the order of the
-- records, with the request that the protocol parses from its packet and the record's capture time; of
-- the others the request and the time stay. `reqn` counts the requests.
pub find_requests-IsFound :
    (parser : MessageParser) (fin : Option Fin) (closed : Bool) (n : ℕ) (seqs : List Seq)
    (w : RequestWalk)
    → IsSafe fin closed
    → (w' : RequestWalk) × (find_requests parser fin closed n seqs w
        ≡ some (mark_requests fin seqs, w'))
      × IsFound parser fin seqs w w'
unfolding find_requests
find_requests-IsFound parser fin closed n [] w safe = (w, refl, (sym (append-nil _), omega arith))
find_requests-IsFound parser fin closed n (s ∷ seqs) w safe =
    let (v, e, made) = request_step-IsMade parser fin closed n s seqs w safe in
    let (u, f, found) = find_requests-IsFound parser fin closed (suc n) seqs v safe in
    elim (Bool-cases (is_within fin s)) [
      | inl within ↦
          let whole = IsMade-IsFound parser fin s seqs w v u within made found in
          (u, rw (within, e, f) refl, whole)
      | inr beyond ↦ (w, rw beyond refl, rw beyond (sym (append-nil _), omega arith))
    ]
