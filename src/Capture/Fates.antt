-- ===== src/Capture/Fates.antt =====
-- What becomes of a captured packet.
use monitoring_tool.Prelude.{
  ℕ, zero, suc, ◌+◌, ◌≤◌, ◌≡◌, refl, sym, ap, ◌∙◌, Bool, true, false, ◌||◌, none, some, List, [],
  ◌∷◌, ◌++◌, arith, ◌==◌, if◌then◌else◌, length, length-append, drop, Option-cases, inl, inr,
  Bool-cases,
}
use mathlib.Core.List.{append_assoc}
use mathlib.Core.Option.{some-injective}
use mathlib.Core.Logic.{◌⊎◌}
use monitoring_tool.Prelude.Partial.{◌>>=◌, >>=-eq-some}
use monitoring_tool.Packet.{Packet, req, rsp}
use monitoring_tool.Packet.Headers.{u8_at, bytes_at}
use monitoring_tool.Capture.{
  Protocol, Sniffer, Fate, freed, queued, leaked, count_type, is_packet_of, real_length,
  is_header_packet, type_of, with_copy, with_payload, dispatch,
}

length-bytes_at : (p : List ℕ) (i n : ℕ) (bs : List ℕ) → bytes_at p i n ≡ some bs → length bs ≡ n
unfolding bytes_at
length-bytes_at p i zero bs e = ground (arith, ap length (some-injective [] bs e))
length-bytes_at p i (suc n) bs e =
    let (b, e1, r) = >>=-eq-some (u8_at p i) _ e in
    let (rest, e2, e3) = >>=-eq-some (bytes_at p (i + 1) n) _ r in
    ap length (sym (some-injective (b ∷ rest) bs e3)) ∙ ap suc (length-bytes_at p (i + 1) n rest e2)

-- The packet that is queued: with a copy of its payload if the protocol recognises it, without one
-- otherwise.
pub data Payload (protocol : Protocol) (cp : List ℕ) (pkt pkt' : Packet) : Type 0 where
  recognised :
      (bytes : List ℕ) (request response : Bool)
      → protocol.is_request cp pkt.tcp_dl ≡ some request
      → protocol.is_response cp pkt.tcp_dl ≡ some response
      → request || response ≡ true
      → pkt'.type ≡ (if request then req else rsp)
      → pkt'.tcp_dl ≡ real_length pkt
      → bytes_at cp 0 pkt'.tcp_dl ≡ some bytes
      → pkt'.tcp_odata ≡ some (bytes ++ 0 ∷ [])
      → length bytes ≡ pkt'.tcp_dl
      → Payload protocol cp pkt pkt'
  bare :
      protocol.is_request cp pkt.tcp_dl ≡ some false
      → protocol.is_response cp pkt.tcp_dl ≡ some false
      → pkt'.type ≡ pkt.type
      → pkt'.tcp_dl ≡ pkt.tcp_dl
      → pkt'.tcp_odata ≡ none
      → Payload protocol cp pkt pkt'

-- A payload that is recognised.
header-Payload :
    (protocol : Protocol) (cp : List ℕ) (pkt pkt' : Packet) (request response : Bool)
    → protocol.is_request cp pkt.tcp_dl ≡ some request
    → protocol.is_response cp pkt.tcp_dl ≡ some response
    → request || response ≡ true
    → with_copy cp pkt (if request then req else rsp) (real_length pkt) ≡ some pkt'
    → Payload protocol cp pkt pkt'
header-Payload protocol cp pkt pkt' request response q r header e =
    let (bytes, got, made) = >>=-eq-some (bytes_at cp 0 (real_length pkt)) _ e in
    let same = sym (some-injective _ pkt' made) in
    let dl : pkt'.tcp_dl ≡ real_length pkt = ap (λ (p : Packet). p.tcp_dl) same in
    Payload.recognised bytes request response q r header (ap (λ (p : Packet). p.type) same) dl
      (rw dl got) (ap (λ (p : Packet). p.tcp_odata) same)
      (length-bytes_at cp 0 (real_length pkt) bytes got ∙ sym dl)

-- A packet that is queued keeps, if the protocol recognises its payload as the start of a request or of
-- a response, the type of that (a request first), the length that was captured behind the headers, and a
-- copy of exactly that many bytes of payload with a NUL behind it; otherwise its type and length are
-- left and it keeps no payload.
pub with_payload-Payload :
    (protocol : Protocol) (cp : List ℕ) (pkt pkt' : Packet)
    → with_payload protocol cp pkt ≡ some pkt'
    → Payload protocol cp pkt pkt'
unfolding with_payload is_header_packet type_of
with_payload-Payload protocol cp pkt pkt' e =
    elim (Option-cases (protocol.is_request cp pkt.tcp_dl)) [
      | inl fault ↦ absurd (ground (arith, fault, rw fault at e))
      | inr (request, q) ↦ elim (Option-cases (protocol.is_response cp pkt.tcp_dl)) [
        | inl fault ↦ absurd (ground (arith, rw (q, fault) at e))
        | inr (response, r) ↦ typed request response q r (rw (q, r) at e)
      ]
    ]
  where
    typed :
        (request response : Bool)
        → protocol.is_request cp pkt.tcp_dl ≡ some request
        → protocol.is_response cp pkt.tcp_dl ≡ some response
        → (if request || response
            then ((if request then some req else some (if response then rsp else 0)) >>= λ type.
                with_copy cp pkt type (if type == 0 then pkt.tcp_dl else real_length pkt))
            else some (record pkt { tcp_odata = none; tcp_data = none }))
          ≡ some pkt'
        → Payload protocol cp pkt pkt'
    typed true true q r e' = header-Payload protocol cp pkt pkt' true true q r refl e'
    typed true false q r e' = header-Payload protocol cp pkt pkt' true false q r refl e'
    typed false true q r e' = header-Payload protocol cp pkt pkt' false true q r refl e'
    typed false false q r e' =
        let same = sym (some-injective _ pkt' e') in
        Payload.bare q r (ap (λ (p : Packet). p.type) same) (ap (λ (p : Packet). p.tcp_dl) same)
          (ap (λ (p : Packet). p.tcp_odata) same)

-- How many packets wait in the queues.
abbrev pub waiting : List Protocol → ℕ
waiting [] = 0
waiting (p ∷ ps) = length p.pq + waiting ps

waiting-append : (ps qs : List Protocol) → waiting (ps ++ qs) ≡ waiting ps + waiting qs
waiting-append [] qs = omega arith
waiting-append (p ∷ ps) qs = omega (arith, waiting-append ps qs)

-- Some protocol has one of the ports.
abbrev pub claimed : List Protocol → Packet → Bool
claimed [] pkt = false
claimed (p ∷ ps) pkt = is_packet_of p pkt.sport pkt.dport || claimed ps pkt

abbrev pub fate_of : List Protocol → Packet → Fate
fate_of ps pkt = if claimed ps pkt then (if pkt.tcp_dl == 0 then leaked else queued) else freed

abbrev pub arrivals : Fate → ℕ
arrivals freed = 0
arrivals leaked = 0
arrivals queued = 1

-- The outcome of the loop over the protocols.
pub record Dispatched (s : Sniffer) (pkt : Packet) (s' : Sniffer) (f : Fate) : Type 0 where
  pub fate : f ≡ fate_of s.protocols pkt
  pub waits : waiting s'.protocols ≡ waiting s.protocols + arrivals f
  pub unqueued : (f ≡ queued) ⊎ (s' ≡ s)
  pub counted : s'.req_n + s'.rsp_n ≤ s.req_n + s.rsp_n + arrivals f

dispatch_fate :
    (s : Sniffer) (seen left : List Protocol) (cp : List ℕ) (pkt : Packet) (s' : Sniffer) (f : Fate)
    → dispatch s seen left cp pkt ≡ some (s', f)
    → f ≡ fate_of left pkt
unfolding dispatch
dispatch_fate s seen [] cp pkt s' f e = ground arith
dispatch_fate s seen (p ∷ left) cp pkt s' f e =
    ground (arith, dispatch_fate s (seen ++ p ∷ []) left cp pkt s' f)

-- One more packet in one queue.
waiting_more :
    (seen left : List Protocol) (p : Protocol) (pkt : Packet)
    → waiting (seen ++ (record p { pq = p.pq ++ pkt ∷ [] } ∷ left))
      ≡ waiting (seen ++ (p ∷ left)) + 1
waiting_more seen left p pkt = omega (
  arith,
  waiting-append seen (record p { pq = p.pq ++ pkt ∷ [] } ∷ left),
  waiting-append seen (p ∷ left),
  length-append p.pq (pkt ∷ []),
)

count_type-le :
    (s : Sniffer) (type : ℕ)
    → (count_type s type).req_n + (count_type s type).rsp_n ≤ s.req_n + s.rsp_n + 1
count_type-le s type = ground arith

-- What a call of the loop changes, for the protocols `seen ++ left`.
record Changes (s : Sniffer) (all : List Protocol) (s' : Sniffer) (f : Fate) : Type 0 where
  waits : waiting s'.protocols ≡ waiting all + arrivals f
  unqueued : (f ≡ queued) ⊎ (s' ≡ s)
  counted : s'.req_n + s'.rsp_n ≤ s.req_n + s.rsp_n + arrivals f

module _ (s : Sniffer) (cp : List ℕ) (pkt : Packet) (s' : Sniffer) (f : Fate) where
  dispatch-Changes :
      (seen left : List Protocol)
      → s.protocols ≡ seen ++ left
      → dispatch s seen left cp pkt ≡ some (s', f)
      → Changes s (seen ++ left) s' f
  unfolding dispatch
  dispatch-Changes seen [] same e = record {
    waits = ground arith;
    unqueued = inr (ground arith);
    counted = ground arith;
  }
  dispatch-Changes seen (p ∷ left) same e = elim (Bool-cases (is_packet_of p pkt.sport pkt.dport)) [
    | inr other ↦
        let c =
          dispatch-Changes (seen ++ p ∷ []) left (same ∙ sym (append_assoc seen (p ∷ []) left))
            (rw other at e) in
        record {
          waits =
              c.waits
              ∙ ap (λ (l : List Protocol). waiting l + arrivals f)
                  (append_assoc seen (p ∷ []) left);
          unqueued = c.unqueued;
          counted = c.counted;
        }
    | inl hit ↦ elim (Option-cases (with_payload p (drop pkt.tcp_hl cp) pkt)) [
      | inl fault ↦ record {
        waits = ground arith;
        unqueued = inr (ground arith);
        counted = ground arith;
      }
      | inr (pkt', kept) ↦ record {
        waits = ground (arith, waiting_more seen left p pkt');
        unqueued = elim (Bool-cases (pkt.tcp_dl == 0)) [
          | inl empty ↦ inr (ground arith)
          | inr full ↦ inl (ground arith)
        ];
        counted = ground (arith, count_type-le s pkt'.type);
      }
    ]
  ]

-- The loop over the protocols ends in one of three ways. If no protocol has one of the packet's ports the
-- packet is freed; if one has and the packet carries no payload it is leaked; otherwise it is queued.
-- Only in the last case does anything change: one more packet waits in the queues, and the two counters
-- together go up by one at most.
pub dispatch-Dispatched :
    (s : Sniffer) (cp : List ℕ) (pkt : Packet) (s' : Sniffer) (f : Fate)
    → dispatch s [] s.protocols cp pkt ≡ some (s', f)
    → Dispatched s pkt s' f
dispatch-Dispatched s cp pkt s' f e =
    let c = dispatch-Changes s cp pkt s' f [] s.protocols refl e in
    record {
      fate = dispatch_fate s [] s.protocols cp pkt s' f e;
      waits = c.waits;
      unqueued = c.unqueued;
      counted = c.counted;
    }
