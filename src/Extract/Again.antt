-- ===== src/Extract/Again.antt =====
-- `Protocol::extractPair` of c-http-sniffer/src/protocols/protocol.cpp on a flow without a new request,
-- such as every flow that it has already been called on.

use mathlib.Core.Path.{transport}
use monitoring_tool.Prelude.{
  ℕ, zero, suc, ◌≡◌, refl, sym, ap, ◌∙◌, Bool, true, false, Option, none, some, List, [], ◌∷◌,
  if◌then◌else◌, inl, inr, arith, Bool-cases,
}
use monitoring_tool.Prelude.Partial.{Holds, Holds->>=, Holds-some, Holds-elim}
use monitoring_tool.Packet.{req, rsp}
use monitoring_tool.Order.{Seq}
use monitoring_tool.Extract.Records.{Flow, MessageParser, compare_sequence_time}
use monitoring_tool.Extract.Fins.{Fin, first_payload, fin_seq, set_first_byte}
use monitoring_tool.Extract.Requests.{
  is_within, is_new, marked, is_skipped, RequestWalk, request_step, find_requests,
}
use monitoring_tool.Extract.Responses.{ResponseWalk, response_step, find_responses}
use monitoring_tool.Extract.Flows.{
  request_start, response_start, with_requests, add_responses, extract_pair,
}
use monitoring_tool.Extract.NewPairs.{mark_requests}
use monitoring_tool.Extract.Frames.{
  Frame, frame_of, frames, marked-frame, mark_requests-frames, is_within-frames, with_first_byte,
  set_first_byte_lem, set_first_byte_again,
}

-- No record before the FIN record is a new request.
abbrev pub IsQuiet : Option Fin → List Seq → Type 0
IsQuiet fin [] = Unit
IsQuiet fin (s ∷ seqs) = is_within fin s ≡ true → (is_new req s ≡ false) × IsQuiet fin seqs

request_step_quiet :
    (parser : MessageParser) (fin : Option Fin) (closed : Bool) (n : ℕ) (s : Seq) (rest : List Seq)
    (w : RequestWalk)
    → is_new req s ≡ false
    → w.new_pair ≡ none
    → request_step parser fin closed n s rest w ≡ some w
unfolding request_step
request_step_quiet parser fin closed n s rest w old none_yet =
    let skipped : is_skipped s w.new_pair ≡ true = ap (is_skipped s) none_yet in
    rw (old, skipped) refl

marked_old : (s : Seq) → is_new req s ≡ false → marked req s ≡ s
marked_old s old = ap (λ (b : Bool). if b then record s { processed = true } else s) old

find_requests_quiet :
    (parser : MessageParser) (fin : Option Fin) (closed : Bool) (n : ℕ) (seqs : List Seq)
    (w : RequestWalk)
    → IsQuiet fin seqs
    → w.new_pair ≡ none
    → find_requests parser fin closed n seqs w ≡ some (seqs, w)
unfolding find_requests
find_requests_quiet parser fin closed n [] w quiet none_yet = refl
find_requests_quiet parser fin closed n (s ∷ seqs) w quiet none_yet =
    elim (Bool-cases (is_within fin s)) [
      | inr beyond ↦ rw beyond refl
      | inl within ↦
          let (old, later) = quiet within in
          let rest = find_requests_quiet parser fin closed (suc n) seqs w later none_yet in
          let step = request_step_quiet parser fin closed n s seqs w old none_yet in
          let same : some (marked req s ∷ seqs, w) ≡ some (s ∷ seqs, w) =
            ap (λ (t : Seq). some (t ∷ seqs, w)) (marked_old s old) in
          rw (within, step, rest) same
    ]

with_requests_again :
    (f : Flow) (init : Bool) (o : Option Seq)
    → with_requests (if init then f else with_first_byte f o) f.src (request_start f)
      ≡ (if init then f else with_first_byte f o)
with_requests_again f true o = refl
with_requests_again f false none = refl
with_requests_again f false (some s) = refl

start_again :
    (f : Flow) → with_requests (set_first_byte f) f.src (request_start f) ≡ set_first_byte f
start_again f = rw (set_first_byte_lem f) (with_requests_again f f.init (first_payload f.src))

-- Without a new request before the FIN record `extractPair` sets the time of the flow's first byte if
-- it is not set yet, returns 1 and changes nothing else, whatever responses are there.
pub extract_pair_quiet :
    (parser : MessageParser) (f : Flow) (closed : Bool)
    → IsQuiet (fin_seq f.src f.dst) f.src
    → extract_pair parser f closed ≡ some (set_first_byte f, 1)
unfolding extract_pair
extract_pair_quiet parser f closed quiet =
    let fin = fin_seq f.src f.dst in
    let walk = find_requests_quiet parser fin closed 0 f.src (request_start f) quiet refl in
    rw walk (ap (λ (g : Flow). some (g, 1)) (start_again f))

-- The records of the walk over the responses have the frames that they had.
find_responses-frames :
    (parser : MessageParser) (fin : Option Fin) (n : ℕ) (seqs : List Seq) (w : ResponseWalk)
    → Holds
        (λ (r : List Seq × ResponseWalk × ℕ). frames r.0 ≡ frames seqs)
        (find_responses parser fin n seqs w)
unfolding find_responses
find_responses-frames parser fin n [] w = refl
find_responses-frames parser fin n (s ∷ seqs) w = elim (Bool-cases (is_within fin s)) [
  | inr beyond ↦ rw beyond refl
  | inl within ↦ rw within (
      Holds->>= _ (response_step parser fin n s seqs w) _ (λ a e.
        Holds-elim _ a.1 _ _ (ap (λ (f : Frame). f ∷ frames seqs) (marked-frame rsp s)) (
          Holds->>= _ (find_responses parser fin (suc n) seqs a.0) _ (λ r f.
            rw (marked-frame rsp s) (
              ap (λ (fs : List Frame). frame_of s ∷ fs)
                (Holds-some (λ (r : List Seq × ResponseWalk × ℕ). frames r.0 ≡ frames seqs) f
                  (find_responses-frames parser fin (suc n) seqs a.0)))))))
]

-- The records of the walk over the requests, if it ends.
find_requests-marks :
    (parser : MessageParser) (fin : Option Fin) (closed : Bool) (n : ℕ) (seqs : List Seq)
    (w : RequestWalk)
    → Holds
        (λ (r : List Seq × RequestWalk). r.0 ≡ mark_requests fin seqs)
        (find_requests parser fin closed n seqs w)
unfolding find_requests
find_requests-marks parser fin closed n [] w = refl
find_requests-marks parser fin closed n (s ∷ seqs) w = elim (Bool-cases (is_within fin s)) [
  | inr beyond ↦ rw beyond refl
  | inl within ↦ rw within (
      Holds->>= _ (request_step parser fin closed n s seqs w) _ (λ w' e.
        Holds->>= _ (find_requests parser fin closed (suc n) seqs w') _ (λ r f.
          ap (λ (l : List Seq). marked req s ∷ l)
            (Holds-some (λ (r : List Seq × RequestWalk). r.0 ≡ mark_requests fin seqs) f
              (find_requests-marks parser fin closed (suc n) seqs w')))))
]

is_within-processed :
    (fin : Option Fin) (s : Seq) → is_within fin (record s { processed = true }) ≡ is_within fin s
unfolding is_within compare_sequence_time
is_within-processed none s = refl
is_within-processed (some fin) s = refl

is_new-processed : (s : Seq) → is_new req (record s { processed = true }) ≡ false
unfolding is_new
is_new-processed s = ground arith

is_within-marked :
    (fin : Option Fin) (type : ℕ) (s : Seq) → is_within fin (marked type s) ≡ is_within fin s
unfolding is_within compare_sequence_time
is_within-marked fin type s = elim (Bool-cases (is_new type s)) [
  | inl new ↦ rw new (is_within-processed fin s)
  | inr old ↦ rw old refl
]

is_new-marked : (s : Seq) → is_new req (marked req s) ≡ false
is_new-marked s = elim (Bool-cases (is_new req s)) [
  | inl new ↦ rw new (is_new-processed s)
  | inr old ↦ rw old old
]

mark_requests-IsQuiet :
    (fin end : Option Fin) (seqs : List Seq)
    → ((s : Seq) → is_within end s ≡ is_within fin s)
    → IsQuiet end (mark_requests fin seqs)
mark_requests-IsQuiet fin end [] same = tt
mark_requests-IsQuiet fin end (s ∷ seqs) same = elim (Bool-cases (is_within fin s)) [
  | inl within ↦ rw within (λ h. (is_new-marked s, mark_requests-IsQuiet fin end seqs same))
  | inr beyond ↦ rw beyond (λ h. absurd (ground (arith, same s, beyond, h)))
]

-- What a call leaves of the flow `f` for another call.
abbrev IsLeft : (f g : Flow) → Type 0
IsLeft f g =
    (g.src ≡ mark_requests (fin_seq f.src f.dst) f.src)
    × (frames g.dst ≡ frames f.dst)
    × (g.init ≡ (set_first_byte f).init)

with_first_byte-dst :
    (f : Flow) (init : Bool) (o : Option Seq)
    → (if init then f else with_first_byte f o).dst ≡ f.dst
with_first_byte-dst f true o = refl
with_first_byte-dst f false none = refl
with_first_byte-dst f false (some s) = refl

pub set_first_byte-dst : (f : Flow) → (set_first_byte f).dst ≡ f.dst
set_first_byte-dst f =
    ap Flow.dst (set_first_byte_lem f) ∙ with_first_byte-dst f f.init (first_payload f.src)

pub Holds-count :
    {A : Type 0} (P : A → Type 0) (n : ℕ) (x y : Option A)
    → Holds P x
    → Holds P y
    → Holds P (elim n as (λ k. Option A) [ zero ↦ x | suc k ↦ y ])
Holds-count P zero x y hx hy = hx
Holds-count P (suc n) x y hx hy = hy

add_responses-IsLeft :
    (parser : MessageParser) (f : Flow) (src : List Seq) (w : RequestWalk)
    → src ≡ mark_requests (fin_seq f.src f.dst) f.src
    → Holds
        (λ (r : Flow × ℕ). IsLeft f r.0)
        (add_responses parser (fin_seq f.src f.dst) (set_first_byte f) src w)
unfolding add_responses
add_responses-IsLeft parser f src w e =
    let responses =
      find_responses parser (fin_seq f.src f.dst) 0 (set_first_byte f).dst (response_start w) in
    Holds-count _ w.reqn _ _ (e, ap frames (set_first_byte-dst f), refl)
      (Holds->>= _ responses _ (λ r h. (
        e,
        Holds-some (λ (r : List Seq × ResponseWalk × ℕ). frames r.0 ≡ frames (set_first_byte f).dst)
              h
              (find_responses-frames parser (fin_seq f.src f.dst) 0 (set_first_byte f).dst
                (response_start w))
            ∙ ap frames (set_first_byte-dst f),
        refl,
      )))

extract_pair-IsLeft :
    (parser : MessageParser) (f : Flow) (closed : Bool)
    → Holds (λ (r : Flow × ℕ). IsLeft f r.0) (extract_pair parser f closed)
unfolding extract_pair
extract_pair-IsLeft parser f closed =
    let fin = fin_seq f.src f.dst in
    Holds->>= _ (find_requests parser fin closed 0 f.src (request_start f)) _ (λ r e.
      add_responses-IsLeft parser f r.0 r.1 (
        Holds-some (λ (r : List Seq × RequestWalk). r.0 ≡ mark_requests fin f.src) e
          (find_requests-marks parser fin closed 0 f.src (request_start f))))

-- Called again on the flow that it leaves, whether the flow is closed meanwhile or not, `extractPair`
-- returns 1 and changes nothing: each request makes one pair only.
pub extract_pair_again :
    (parser : MessageParser) (f g : Flow) (closed closed' : Bool) (code : ℕ)
    → extract_pair parser f closed ≡ some (g, code)
    → extract_pair parser g closed' ≡ some (g, 1)
extract_pair_again parser f g closed closed' code h =
    let (src, dst, init) =
      Holds-some (λ (r : Flow × ℕ). IsLeft f r.0) h (extract_pair-IsLeft parser f closed) in
    let fin = fin_seq f.src f.dst in
    let same_frames : frames g.src ≡ frames f.src =
      ap frames src ∙ mark_requests-frames fin f.src in
    let quiet : IsQuiet (fin_seq g.src g.dst) g.src =
      transport (ap (IsQuiet (fin_seq g.src g.dst)) (sym src)) (
        mark_requests-IsQuiet fin (fin_seq g.src g.dst) f.src
          (λ s. is_within-frames f.src g.src f.dst g.dst s same_frames dst)) in
    extract_pair_quiet parser g closed' quiet
    ∙ ap (λ (x : Flow). some (x, 1)) (set_first_byte_again f g same_frames init)
