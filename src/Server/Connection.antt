-- ===== src/Server/Connection.antt =====
-- A client's connection: `connection_handler` of c-http-sniffer/src/server.c, with the constructors of the
-- protocols and `activeMetrics`, `setClientIp`, `addClientPort`, `setServerIp` and `addServerPort` of
-- src/protocols. `recv` and `analysis__init__unpack` are parameters. `start_analysis` comes back when the
-- threads of the analysis have ended; whether they ever do is a parameter too. The analyses are noted in
-- the order in which they are started.
pub mod Kept
pub mod Starts
pub mod Tests
use Prim.Native.Nat.{bit_and}
use monitoring_tool.Prelude.{
  ℕ, zero, suc, ◌+◌, ◌%◌, ◌^◌, Bool, true, false, not, ◌&&◌, Option, none, some, List, [], ◌∷◌,
  ◌++◌, ◌-◌, ◌==◌, if◌then◌else◌, length,
}
use monitoring_tool.Prelude.Partial.{◌>>=◌}
use monitoring_tool.Pairs.{Filter}
use monitoring_tool.Server.Varint.{decode_varint}

-- The message that a client sends, src/analysis.proto; `none` is a field that it has not.
pub record ProtocolMsg : Type 0 where
  pub id : List ℕ
  pub activemetrics : ℕ
  pub clientip : Option ℕ
  pub clientports : List ℕ
  pub serverip : Option ℕ
  pub serverports : List ℕ

pub record NetIntMsg : Type 0 where
  pub id : List ℕ
  pub protocols : List ProtocolMsg

pub record InitMsg : Type 0 where
  pub netints : List NetIntMsg
  pub interval : ℕ
  pub duration : ℕ

pub data Metric : Type 0 where
  rst req_rate err_rate tp tp_rev conn_rate client req_path req_method req_type rsp_status : Metric

pub data Kind : Type 0 where
  http mem_cached my_sql : Kind

-- A protocol of an analysis: `eventManager` has the metrics that have subscribed, in their order.
pub record Protocol : Type 0 where
  pub kind : Kind
  pub name : List ℕ
  pub id : ℕ
  pub filter : Filter
  pub metrics : List Metric
  pub subscribed : List Metric

pub record Analysis : Type 0 where
  pub interface : List ℕ
  pub interface_id : ℕ
  pub interval : ℕ
  pub duration : ℕ
  pub debug : Bool
  pub protocols : List Protocol

abbrev pub http_ports : List ℕ
http_ports = 80 ∷ 8080 ∷ 8000 ∷ []

abbrev pub mem_cached_ports : List ℕ
mem_cached_ports = 11211 ∷ []

abbrev pub my_sql_ports : List ℕ
my_sql_ports = 3306 ∷ []

-- The constructor that `find_kind` picks has added its ports.
abbrev pub default_ports : Kind → List ℕ
default_ports http = http_ports
default_ports mem_cached = mem_cached_ports
default_ports my_sql = my_sql_ports

abbrev pub http_metrics : List Metric
http_metrics =
    rst ∷ req_rate ∷ err_rate ∷ tp ∷ tp_rev ∷ conn_rate ∷ client ∷ req_path ∷ req_method ∷ req_type
    ∷ rsp_status ∷ []

abbrev pub mem_cached_metrics : List Metric
mem_cached_metrics = rst ∷ err_rate ∷ tp ∷ tp_rev ∷ req_type ∷ rsp_status ∷ []

abbrev pub my_sql_metrics : List Metric
my_sql_metrics = rst ∷ req_rate ∷ tp ∷ tp_rev ∷ req_type ∷ []

-- The constructor that `find_kind` picks has attached its metrics.
abbrev pub default_metrics : Kind → List Metric
default_metrics http = http_metrics
default_metrics mem_cached = mem_cached_metrics
default_metrics my_sql = my_sql_metrics

-- The constructor of a protocol.
abbrev pub protocol_new : Kind → (name : List ℕ) (id : ℕ) → Protocol
protocol_new kind name id = record {
  kind = kind;
  name = name;
  id = id;
  filter = record {
    client_ip = none;
    client_ports = [];
    server_ip = none;
    server_ports = default_ports kind;
  };
  metrics = default_metrics kind;
  subscribed = [];
}

-- `strcmp` answers 0.
abbrev pub is_same : List ℕ → List ℕ → Bool
is_same [] [] = true
is_same [] (c ∷ cs) = false
is_same (b ∷ bs) [] = false
is_same (b ∷ bs) (c ∷ cs) = b == c && is_same bs cs

-- "HTTP", "MEMCACHED" or "MYSQL"; `none` is an unrecognized protocol.
unfoldable pub find_kind : List ℕ → Option Kind
find_kind name =
    if is_same name (72 ∷ 84 ∷ 84 ∷ 80 ∷ [])
    then some http
    else if is_same name (77 ∷ 69 ∷ 77 ∷ 67 ∷ 65 ∷ 67 ∷ 72 ∷ 69 ∷ 68 ∷ [])
    then some mem_cached
    else if is_same name (77 ∷ 89 ∷ 83 ∷ 81 ∷ 76 ∷ [])
    then some my_sql
    else none

-- `metrics.erase` and `metrics.at`, at a place that is there.
abbrev pub erase : {A : Type 0} → ℕ → List A → List A
erase i [] = []
erase zero (m ∷ ms) = ms
erase (suc i) (m ∷ ms) = m ∷ erase i ms

abbrev pub metric_at : {A : Type 0} → ℕ → List A → List A
metric_at i [] = []
metric_at zero (m ∷ ms) = m ∷ []
metric_at (suc i) (m ∷ ms) = metric_at i ms

abbrev pub has_bit : (mask i : ℕ) → Bool
has_bit mask i = not (bit_and mask (2 ^ i) == 0)

-- The loop of `activeMetrics` from the place below `i` down: the metrics and those that have subscribed.
unfoldable pub active_loop :
    {A : Type 0} → (mask i : ℕ) → (metrics subscribed : List A) → List A × List A
active_loop mask zero metrics subscribed = (metrics, subscribed)
active_loop mask (suc i) metrics subscribed =
    let on = active_loop mask i metrics (subscribed ++ metric_at i metrics) in
    let off = active_loop mask i (erase i metrics) subscribed in if has_bit mask i then on else off

unfoldable pub active_metrics : (mask : ℕ) → Protocol → Protocol
unfolding active_loop
active_metrics mask p =
    let (metrics, subscribed) = active_loop mask (length p.metrics) p.metrics p.subscribed in
    record p { metrics = metrics; subscribed = subscribed }

abbrev pub set_client_ip : ℕ → Protocol → Protocol
set_client_ip ip p = record p { filter = record p.filter { client_ip = some ip } }

abbrev pub set_server_ip : ℕ → Protocol → Protocol
set_server_ip ip p = record p { filter = record p.filter { server_ip = some ip } }

-- The port is cut to 16 bits.
abbrev pub add_client_port : ℕ → Protocol → Protocol
add_client_port port p = record p {
  filter = record p.filter { client_ports = p.filter.client_ports ++ port % 2 ^ 16 ∷ [] };
}

abbrev pub add_server_port : ℕ → Protocol → Protocol
add_server_port port p = record p {
  filter = record p.filter { server_ports = p.filter.server_ports ++ port % 2 ^ 16 ∷ [] };
}

-- The loop over ports, and an address that is set if the message has it.
unfoldable pub each_port : (ℕ → Protocol → Protocol) → List ℕ → Protocol → Protocol
each_port add [] p = p
each_port add (port ∷ ports) p = each_port add ports (add port p)

abbrev pub set_ip : (ℕ → Protocol → Protocol) → Option ℕ → Protocol → Protocol
set_ip set none p = p
set_ip set (some ip) p = set ip p

-- The body of the loop over the protocols on one that is recognized.
unfoldable pub configure : ProtocolMsg → Protocol → Protocol
unfolding active_metrics each_port
configure msg p = each_port add_server_port msg.serverports (
    set_ip set_server_ip msg.serverip (
      each_port add_client_port msg.clientports
        (set_ip set_client_ip msg.clientip (active_metrics msg.activemetrics p))))

-- The loop over the protocols: `none` where one is not recognized, with which the thread ends.
unfoldable pub set_up_protocols : (j : ℕ) → List ProtocolMsg → Option (List Protocol)
unfolding find_kind configure
set_up_protocols j [] = some []
set_up_protocols j (msg ∷ msgs) = do
  kind ← find_kind msg.id
  protocols ← set_up_protocols (suc j) msgs
  some (configure msg (protocol_new kind msg.id j) ∷ protocols)

-- What the thread has done: the analyses it has started, and whether it ends by closing the socket.
pub record Outcome : Type 0 where
  pub started : List Analysis
  pub closed : Bool

abbrev pub start : Analysis → Outcome → Outcome
start a o = record o { started = a ∷ o.started }

-- `start_analysis` waits for the threads of the analysis: `returns` says whether they all end. If they do
-- not, this thread never goes on.
abbrev pub start_and_wait : (returns : Analysis → Bool) → Analysis → (later : Outcome) → Outcome
start_and_wait returns a later =
    if returns a then start a later else record { started = a ∷ []; closed = false }

-- The body of the loop over the interfaces, with what the rest of the loop does.
abbrev pub start_netint :
    (returns : Analysis → Bool)
    → InitMsg
    → (debug : Bool) (i : ℕ) → NetIntMsg
    → Option (List Protocol)
    → (later : Outcome) → Outcome
start_netint returns init debug i netint none later = record { started = []; closed = false }
start_netint returns init debug i netint (some protocols) later =
    start_and_wait returns
      (record {
        interface = netint.id;
        interface_id = i;
        interval = init.interval;
        duration = init.duration;
        debug = debug;
        protocols = protocols;
      })
      later

-- The loop over the interfaces; the thread ends at `error`.
unfoldable pub start_netints :
    (returns : Analysis → Bool) → InitMsg → (debug : Bool) (i : ℕ) → List NetIntMsg → Outcome
unfolding set_up_protocols
start_netints returns init debug i [] = record { started = []; closed = true }
start_netints returns init debug i (netint ∷ netints) =
    start_netint returns init debug i netint (set_up_protocols 0 netint.protocols)
      (start_netints returns init debug (suc i) netints)

-- A message that has been read, unless `unpack` answers NULL.
abbrev pub start_message : (returns : Analysis → Bool) → Option InitMsg → (debug : Bool) → Outcome
start_message returns none debug = record { started = []; closed = false }
start_message returns (some init) debug = start_netints returns init debug 0 init.netints

-- What follows the length. A length of 2 ^ 64 - 1, which is compared with -1 behind the message, ends in
-- `error`.
abbrev pub handle_message :
    (recv : ℕ → List ℕ → List ℕ)
    → (unpack : List ℕ → Option InitMsg) → (returns : Analysis → Bool) → (debug : Bool)
    → (msg_len : ℕ) → (rest : List ℕ) → Outcome
handle_message recv unpack returns debug msg_len rest =
    let msg = recv msg_len rest in
    let outcome = start_message returns (unpack msg) debug in
    if msg_len == 0
    then record { started = []; closed = true }
    else if not (length msg == msg_len)
    then record { started = []; closed = false }
    else if msg_len == 2 ^ 64 - 1
    then record outcome { closed = false }
    else outcome

-- `recv` answers the bytes that one call reads. `none`: the length is read with an undefined shift.
unfoldable pub connection_handler :
    (recv : ℕ → List ℕ → List ℕ)
    → (unpack : List ℕ → Option InitMsg) → (returns : Analysis → Bool) → (debug : Bool)
    → (sock : List ℕ) → Option Outcome
unfolding decode_varint start_netints
connection_handler recv unpack returns debug sock = do
  (msg_len, rest) ← decode_varint sock
  some (handle_message recv unpack returns debug msg_len rest)
