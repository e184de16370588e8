-- ===== src/Extract/Frames.antt =====
-- What `Protocol::extractPair` of c-http-sniffer/src/protocols/protocol.cpp reads of the records to find
-- the FIN record and the first byte: it does not change it.

use monitoring_tool.Prelude.{
  ℕ, suc, ◌%◌, ◌^◌, ◌≡◌, refl, ap, ◌∙◌, Bool, true, false, ◌&&◌, ◌||◌, Option, none, some, List, [],
  ◌∷◌, if◌then◌else◌, ltb, ◌==◌, inl, inr, Bool-cases, Option-cases, arith,
}
use Prim.Native.Nat.{Ordering}
use monitoring_tool.Packet.{Packet, req}
use monitoring_tool.Order.{Seq}
use monitoring_tool.Extract.Records.{Flow, compare_sequence_time}
use monitoring_tool.Extract.Fins.{
  Fin, has_fin, find_fin, first_payload, set_first_byte, earlier_fin, fin_seq,
}
use monitoring_tool.Extract.Requests.{is_within, is_new, has_pkt, marked}
use monitoring_tool.Extract.NewPairs.{mark_requests}

-- A record's capture time, whether it has a packet and whether it has the FIN flag.
abbrev pub Frame : Type 0
Frame = (ℕ × ℕ) × Bool × Bool

abbrev pub time_of : Seq → ℕ × ℕ
time_of s = (s.cap_sec, s.cap_usec)

abbrev pub frame_of : Seq → Frame
frame_of s = (time_of s, has_pkt s, has_fin s)

abbrev pub frames : List Seq → List Frame
frames [] = []
frames (s ∷ seqs) = frame_of s ∷ frames seqs

abbrev compare_times : (time1 time2 : ℕ × ℕ) → Ordering
compare_times (s1, u1) (s2, u2) =
    let sec1 = s1 % 2 ^ 32 in
    let usec1 = u1 % 2 ^ 32 in
    let sec2 = s2 % 2 ^ 32 in
    let usec2 = u2 % 2 ^ 32 in
    if ltb sec2 sec1 || (sec1 == sec2 && ltb usec2 usec1)
    then Ordering.gt
    else if ltb sec1 sec2 || (sec1 == sec2 && ltb usec1 usec2)
    then Ordering.lt
    else Ordering.eq

abbrev first_fin : List Frame → Option (ℕ × ℕ)
first_fin [] = none
first_fin ((time, packet, fin) ∷ fs) = if fin then some time else first_fin fs

abbrev earlier_time : Option (ℕ × ℕ) → Option (ℕ × ℕ) → Option (ℕ × ℕ)
earlier_time none none = none
earlier_time (some a) none = some a
earlier_time none (some b) = some b
earlier_time (some a) (some b) = elim (compare_times a b) [ Ordering.gt ↦ some b | _ ↦ some a ]

abbrev pub fin_time : Option Fin → Option (ℕ × ℕ)
fin_time none = none
fin_time (some fin) = some (time_of fin.seq)

abbrev is_time_within : Option (ℕ × ℕ) → ℕ × ℕ → Bool
is_time_within none time = true
is_time_within (some end) time = elim (compare_times time end) [ Ordering.lt ↦ true | _ ↦ false ]

find_fin-time :
    (in_src : Bool) (n : ℕ) (seqs : List Seq)
    → fin_time (find_fin in_src n seqs) ≡ first_fin (frames seqs)
unfolding find_fin
find_fin-time in_src n [] = refl
find_fin-time in_src n (s ∷ seqs) = elim (Bool-cases (has_fin s)) [
  | inl fin ↦ rw fin refl
  | inr other ↦ rw other (find_fin-time in_src (suc n) seqs)
]

pick-time :
    (o : Ordering) (a b : Fin)
    → fin_time (elim o as (λ x. Option Fin) [ Ordering.gt ↦ some b | _ ↦ some a ])
      ≡ elim o as (λ x. Option (ℕ × ℕ)) [
        | Ordering.gt ↦ some (time_of b.seq)
        | _ ↦ some (time_of a.seq)
      ]
pick-time Ordering.lt a b = refl
pick-time Ordering.eq a b = refl
pick-time Ordering.gt a b = refl

earlier_fin-time :
    (a b : Option Fin) → fin_time (earlier_fin a b) ≡ earlier_time (fin_time a) (fin_time b)
unfolding compare_sequence_time
earlier_fin-time none none = refl
earlier_fin-time (some a) none = refl
earlier_fin-time none (some b) = refl
earlier_fin-time (some a) (some b) = pick-time (compare_sequence_time a.seq b.seq) a b

is_within-time :
    (fin : Option Fin) (s : Seq) → is_within fin s ≡ is_time_within (fin_time fin) (time_of s)
unfolding is_within compare_sequence_time
is_within-time none s = refl
is_within-time (some fin) s = refl

fin_seq-time :
    (src dst : List Seq)
    → fin_time (fin_seq src dst) ≡ earlier_time (first_fin (frames src)) (first_fin (frames dst))
unfolding fin_seq
fin_seq-time src dst =
    rw⁻¹ (find_fin-time true 0 src, find_fin-time false 0 dst)
      (earlier_fin-time (find_fin true 0 src) (find_fin false 0 dst))

-- The walks over the records agree on what they read of the same frames.
pub is_within-frames :
    (src src' dst dst' : List Seq) (s : Seq)
    → frames src' ≡ frames src
    → frames dst' ≡ frames dst
    → is_within (fin_seq src' dst') s ≡ is_within (fin_seq src dst) s
is_within-frames src src' dst dst' s e f =
    rw
      (
        is_within-time (fin_seq src' dst') s,
        is_within-time (fin_seq src dst) s,
        fin_seq-time src dst,
        fin_seq-time src' dst',
        e,
        f,
      )
      refl

abbrev is_some : Option Seq → Bool
is_some none = false
is_some (some s) = true

abbrev any_payload : List Frame → Bool
any_payload [] = false
any_payload ((time, packet, fin) ∷ fs) =
    if packet then true else if fin then false else any_payload fs

payload_lem :
    (o : Option Packet) (s : Seq) (fin : Bool) (later : Option Seq) (any : Bool)
    → is_some later ≡ any
    → is_some (elim o as (λ x. Option Seq) [ some p ↦ some s | none ↦ if fin then none else later ])
      ≡ (if (elim o as (λ x. Bool) [ none ↦ false | some p ↦ true ])
          then true
          else if fin
          then false
          else any)
payload_lem none s true later any h = refl
payload_lem none s false later any h = h
payload_lem (some p) s fin later any h = refl

first_payload-frames : (seqs : List Seq) → is_some (first_payload seqs) ≡ any_payload (frames seqs)
unfolding first_payload
first_payload-frames [] = refl
first_payload-frames (s ∷ seqs) =
    payload_lem s.pkt s (has_fin s) (first_payload seqs) _ (first_payload-frames seqs)

pub marked-frame : (type : ℕ) (s : Seq) → frame_of (marked type s) ≡ frame_of s
marked-frame type s = elim (Bool-cases (is_new type s)) [
  | inl new ↦ rw new refl
  | inr old ↦ rw old refl
]

pub mark_requests-frames :
    (fin : Option Fin) (seqs : List Seq) → frames (mark_requests fin seqs) ≡ frames seqs
mark_requests-frames fin [] = refl
mark_requests-frames fin (s ∷ seqs) = elim (Bool-cases (is_within fin s)) [
  | inl within ↦ rw (within, marked-frame req s, mark_requests-frames fin seqs) refl
  | inr beyond ↦ rw beyond refl
]

abbrev pub with_first_byte : Flow → Option Seq → Flow
with_first_byte f none = f
with_first_byte f (some s) = record f { fb_sec = s.cap_sec; fb_usec = s.cap_usec; init = true }

pub set_first_byte_lem :
    (f : Flow) → set_first_byte f ≡ (if f.init then f else with_first_byte f (first_payload f.src))
unfolding set_first_byte
set_first_byte_lem f = elim (Option-cases (first_payload f.src)) [
  | inl e ↦ rw e refl
  | inr (s, e) ↦ rw e refl
]

with_first_byte-init :
    (f : Flow) (init : Bool) (o : Option Seq)
    → f.init ≡ init
    → (if init then f else with_first_byte f o).init ≡ init || is_some o
with_first_byte-init f true o e = e
with_first_byte-init f false none e = e
with_first_byte-init f false (some s) e = refl

pub set_first_byte-init :
    (f : Flow) → (set_first_byte f).init ≡ f.init || any_payload (frames f.src)
set_first_byte-init f =
    ap Flow.init (set_first_byte_lem f)
    ∙ (with_first_byte-init f f.init (first_payload f.src) refl
        ∙ ap (λ (b : Bool). f.init || b) (first_payload-frames f.src))

-- With nothing to set the flow stays.
set_first_byte-stays :
    (g : Flow) (init : Bool) (o : Option Seq)
    → init || is_some o ≡ init
    → (if init then g else with_first_byte g o) ≡ g
set_first_byte-stays g true o e = refl
set_first_byte-stays g false none e = refl
set_first_byte-stays g false (some s) e = absurd (ground arith)

or_twice : (a b : Bool) → (a || b) || b ≡ a || b
or_twice true b = refl
or_twice false true = refl
or_twice false false = refl

-- Behind `set_first_byte` nothing is left to set, whatever else of the flow has changed.
pub set_first_byte_again :
    (f g : Flow)
    → frames g.src ≡ frames f.src
    → g.init ≡ (set_first_byte f).init
    → set_first_byte g ≡ g
set_first_byte_again f g e h =
    let any = any_payload (frames f.src) in
    let init : g.init ≡ f.init || any = h ∙ set_first_byte-init f in
    let some_g : is_some (first_payload g.src) ≡ any =
      first_payload-frames g.src ∙ ap any_payload e in
    let stays : g.init || is_some (first_payload g.src) ≡ g.init =
      rw (init, some_g) (or_twice f.init any) in
    set_first_byte_lem g ∙ set_first_byte-stays g g.init (first_payload g.src) stays
