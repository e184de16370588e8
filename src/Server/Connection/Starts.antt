-- ===== src/Server/Connection/Starts.antt =====
-- The analyses that a client's message starts, `connection_handler` of c-http-sniffer/src/server.c.

use mathlib.Core.List.{append_assoc, append-nil}
use monitoring_tool.Prelude.{
  ℕ, suc, ◌-◌, ◌%◌, ◌^◌, ◌≤◌, ◌<◌, ◌≡◌, refl, ap, ◌∙◌, Bool, true, false, Option, none, some, List,
  [], ◌∷◌, ◌++◌, ◌&&◌, if◌then◌else◌, Bool-cases, map, ◌==◌, arith, length, inl, inr, Option-cases,
}
use monitoring_tool.Prelude.Partial.{◌>>=◌, >>=-returns}
use monitoring_tool.Server.Varint.{decode_varint, encode_varint}
use monitoring_tool.Server.Varint.RoundTrip.{decode_varint-encode_varint}
use monitoring_tool.Server.Connection.{
  ProtocolMsg, NetIntMsg, InitMsg, Metric, Kind, Protocol, Analysis, default_ports, default_metrics,
  protocol_new, find_kind, active_metrics, set_client_ip, set_server_ip, add_client_port,
  add_server_port, each_port, set_ip, configure, set_up_protocols, Outcome, start_netints,
  start_netint, handle_message, connection_handler,
}
use monitoring_tool.Server.Connection.Kept.{kept, backwards, active_loop-kept}

abbrev pub cut_ports : List ℕ → List ℕ
cut_ports ports = map (λ (port : ℕ). port % 2 ^ 16) ports

-- A protocol as a message asks for it: the filter of the message, with the ports cut to 16 bits behind
-- the protocol's own, and the metrics of the mask.
abbrev pub protocol_for : Kind → ProtocolMsg → (j : ℕ) → Protocol
protocol_for kind msg j = record {
  kind = kind;
  name = msg.id;
  id = j;
  filter = record {
    client_ip = msg.clientip;
    client_ports = cut_ports msg.clientports;
    server_ip = msg.serverip;
    server_ports = default_ports kind ++ cut_ports msg.serverports;
  };
  metrics = kept msg.activemetrics 0 (default_metrics kind);
  subscribed = backwards (kept msg.activemetrics 0 (default_metrics kind));
}

-- The protocols that an interface asks for, unless one of them is not recognized.
abbrev pub protocols_for : (j : ℕ) → List ProtocolMsg → Option (List Protocol)
protocols_for j [] = some []
protocols_for j (msg ∷ msgs) = do
  kind ← find_kind msg.id
  protocols ← protocols_for (suc j) msgs
  some (protocol_for kind msg j ∷ protocols)

abbrev pub analysis_for : InitMsg → Bool → (i : ℕ) → NetIntMsg → List Protocol → Analysis
analysis_for init debug i netint protocols = record {
  interface = netint.id;
  interface_id = i;
  interval = init.interval;
  duration = init.duration;
  debug = debug;
  protocols = protocols;
}

-- The analyses of the interfaces, up to the first that asks for an unrecognized protocol, which is not
-- started, and up to the first that does not end.
abbrev pub analyses_for :
    (Analysis → Bool) → InitMsg → Bool → (i : ℕ) → List NetIntMsg → List Analysis
analyses_for returns init debug i [] = []
analyses_for returns init debug i (netint ∷ netints) =
    let later = analyses_for returns init debug (suc i) netints in
    elim (protocols_for 0 netint.protocols) [
      | none ↦ []
      | some protocols ↦
          let a = analysis_for init debug i netint protocols in
          a ∷ (if returns a then later else [])
    ]

-- Whether every protocol is recognized, and every analysis ends.
abbrev pub all_end : (Analysis → Bool) → InitMsg → Bool → (i : ℕ) → List NetIntMsg → Bool
all_end returns init debug i [] = true
all_end returns init debug i (netint ∷ netints) =
    let later = all_end returns init debug (suc i) netints in
    elim (protocols_for 0 netint.protocols) [
      | none ↦ false
      | some protocols ↦ returns (analysis_for init debug i netint protocols) && later
    ]

client_ports_lem :
    (ports : List ℕ) (p : Protocol)
    → each_port add_client_port ports p ≡ record p {
      filter = record p.filter { client_ports = p.filter.client_ports ++ cut_ports ports };
    }
unfolding each_port
client_ports_lem [] p = rw (append-nil p.filter.client_ports) refl
client_ports_lem (port ∷ ports) p =
    client_ports_lem ports (add_client_port port p)
    ∙ rw (append_assoc p.filter.client_ports (port % 2 ^ 16 ∷ []) (cut_ports ports)) refl

server_ports_lem :
    (ports : List ℕ) (p : Protocol)
    → each_port add_server_port ports p ≡ record p {
      filter = record p.filter { server_ports = p.filter.server_ports ++ cut_ports ports };
    }
unfolding each_port
server_ports_lem [] p = rw (append-nil p.filter.server_ports) refl
server_ports_lem (port ∷ ports) p =
    server_ports_lem ports (add_server_port port p)
    ∙ rw (append_assoc p.filter.server_ports (port % 2 ^ 16 ∷ []) (cut_ports ports)) refl

abbrev client_ip_set : Option ℕ → Protocol → Protocol
client_ip_set ip p = record p { filter = record p.filter { client_ip = ip } }

abbrev server_ip_set : Option ℕ → Protocol → Protocol
server_ip_set ip p = record p { filter = record p.filter { server_ip = ip } }

client_ip_lem :
    (ip : Option ℕ) (p : Protocol)
    → p.filter.client_ip ≡ none
    → set_ip set_client_ip ip p ≡ client_ip_set ip p
client_ip_lem none p e = ap (λ (o : Option ℕ). client_ip_set o p) e
client_ip_lem (some ip) p e = refl

server_ip_lem :
    (ip : Option ℕ) (p : Protocol)
    → p.filter.server_ip ≡ none
    → set_ip set_server_ip ip p ≡ server_ip_set ip p
server_ip_lem none p e = ap (λ (o : Option ℕ). server_ip_set o p) e
server_ip_lem (some ip) p e = refl

configure-protocol_for :
    (kind : Kind) (msg : ProtocolMsg) (j : ℕ)
    → configure msg (protocol_new kind msg.id j) ≡ protocol_for kind msg j
unfolding configure active_metrics
configure-protocol_for kind msg j =
    let new = protocol_new kind msg.id j in
    let active = active_metrics msg.activemetrics new in
    let asked = client_ip_set msg.clientip active in
    let from =
      ap (λ (p : Protocol). each_port add_client_port msg.clientports p)
        (client_ip_lem msg.clientip active refl)
      ∙ client_ports_lem msg.clientports asked in
    let to =
      ap (λ (p : Protocol). set_ip set_server_ip msg.serverip p) from
      ∙ server_ip_lem msg.serverip
          (record asked {
            filter = record asked.filter { client_ports = cut_ports msg.clientports };
          })
          refl in
    ap (λ (p : Protocol). each_port add_server_port msg.serverports p) to
    ∙ (server_ports_lem msg.serverports _
        ∙ ap
            (λ (m : List Metric × List Metric). record (protocol_for kind msg j) {
              metrics = m.0;
              subscribed = m.1;
            })
            (active_loop-kept msg.activemetrics (default_metrics kind) []))

set_up-protocols_for :
    (j : ℕ) (msgs : List ProtocolMsg) → set_up_protocols j msgs ≡ protocols_for j msgs
unfolding set_up_protocols
set_up-protocols_for j [] = refl
set_up-protocols_for j (msg ∷ msgs) = elim (Option-cases (find_kind msg.id)) [
  | inl e ↦ rw e refl
  | inr (kind, e) ↦
      rw (e, set_up-protocols_for (suc j) msgs, configure-protocol_for kind msg j) refl
]

-- The outcome that the message is due.
abbrev pub outcome_for : (Analysis → Bool) → InitMsg → Bool → (i : ℕ) → List NetIntMsg → Outcome
outcome_for returns init debug i netints = record {
  started = analyses_for returns init debug i netints;
  closed = all_end returns init debug i netints;
}

-- An interface in front of the others.
outcome_cons :
    (returns : Analysis → Bool) (init : InitMsg) (debug : Bool) (i : ℕ) (netint : NetIntMsg)
    (netints : List NetIntMsg) (o : Option (List Protocol))
    → start_netint returns init debug i netint o (outcome_for returns init debug (suc i) netints)
      ≡ record {
        started = elim o as (λ x. List Analysis) [
          | none ↦ []
          | some protocols ↦
              let a = analysis_for init debug i netint protocols in
              a ∷ (if returns a then analyses_for returns init debug (suc i) netints else [])
        ];
        closed = elim o as (λ x. Bool) [
          | none ↦ false
          | some protocols ↦
              returns (analysis_for init debug i netint protocols)
              && all_end returns init debug (suc i) netints
        ];
      }
outcome_cons returns init debug i netint netints none = refl
outcome_cons returns init debug i netint netints (some protocols) =
    elim (Bool-cases (returns (analysis_for init debug i netint protocols))) [
      | inl ends ↦ rw ends refl
      | inr endless ↦ rw endless refl
    ]

start_netints-outcome_for :
    (returns : Analysis → Bool) (init : InitMsg) (debug : Bool) (i : ℕ) (netints : List NetIntMsg)
    → start_netints returns init debug i netints ≡ outcome_for returns init debug i netints
unfolding start_netints
start_netints-outcome_for returns init debug i [] = refl
start_netints-outcome_for returns init debug i (netint ∷ netints) =
    ap
      (λ (o : Option (List Protocol)).
        start_netint returns init debug i netint o
          (start_netints returns init debug (suc i) netints))
      (set_up-protocols_for 0 netint.protocols)
    ∙ (ap (start_netint returns init debug i netint (protocols_for 0 netint.protocols))
          (start_netints-outcome_for returns init debug (suc i) netints)
        ∙ outcome_cons returns init debug i netint netints (protocols_for 0 netint.protocols))

-- The message that was sent, once its length is read.
handle_message-outcome_for :
    (recv : ℕ → List ℕ → List ℕ) (unpack : List ℕ → Option InitMsg) (returns : Analysis → Bool)
    (debug : Bool) (msg sent : List ℕ) (init : InitMsg)
    → 1 ≤ length msg
    → length msg < 2 ^ 31
    → recv (length msg) sent ≡ msg
    → unpack msg ≡ some init
    → handle_message recv unpack returns debug (length msg) sent
      ≡ outcome_for returns init debug 0 init.netints
handle_message-outcome_for recv unpack returns debug msg sent init pos short received unpacked =
    let some_bytes : (length msg == 0) ≡ false = ground (arith, pos) in
    let all : (length msg == length msg) ≡ true = ground arith in
    let small : (length msg == 2 ^ 64 - 1) ≡ false = ground (arith, short) in
    rw (received, unpacked, some_bytes, all, small)
      (start_netints-outcome_for returns init debug 0 init.netints)

-- A message that is not empty and shorter than 2 ^ 31 bytes, sent behind its length as `encode_varint`
-- writes it, is read and unpacked where one `recv` answers all of it, and the thread starts, in the order
-- of the message and each when the one before has ended, an analysis for each interface before the first
-- that asks for an unrecognized protocol, and none behind an analysis whose threads do not end. An
-- analysis has the interval and the duration of the message, the interface with its place, and for each
-- protocol the addresses that are asked for, the ports cut to 16 bits behind the protocol's own, and
-- exactly the metrics whose bits are set, each subscribed once. The socket is closed if every protocol is
-- recognized and every analysis ends, and otherwise left open.
pub connection_handler-outcome_for :
    (recv : ℕ → List ℕ → List ℕ) (unpack : List ℕ → Option InitMsg) (returns : Analysis → Bool)
    (debug : Bool) (msg rest : List ℕ) (init : InitMsg)
    → 1 ≤ length msg
    → length msg < 2 ^ 31
    → recv (length msg) (msg ++ rest) ≡ msg
    → unpack msg ≡ some init
    → (prefix : List ℕ) × (encode_varint 10 (length msg) ≡ some (prefix, length prefix))
      × (connection_handler recv unpack returns debug (prefix ++ (msg ++ rest))
          ≡ some (outcome_for returns init debug 0 init.netints))
unfolding connection_handler
connection_handler-outcome_for recv unpack returns debug msg rest init pos short received unpacked =
    let (prefix, e, d) =
      decode_varint-encode_varint 10 (length msg) (msg ++ rest) (omega arith)
        (omega (arith, short)) in
    let read : decode_varint (prefix ++ (msg ++ rest)) ≡ some (length msg, msg ++ rest) =
      d ∙ ground (arith, short) in
    (
      prefix,
      e,
      >>=-returns (decode_varint (prefix ++ (msg ++ rest))) _ read (
          ap some (
            handle_message-outcome_for recv unpack returns debug msg (msg ++ rest) init pos short
              received unpacked)),
    )
