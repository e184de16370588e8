-- ===== src/Pairs.antt =====
-- The pairs of requests and responses of a flow: `Protocol::extractData` of
-- c-http-sniffer/src/protocols/protocol.cpp, which tells the observers what is new in a flow, and
-- `Flow::add_pair` of src/flow.cpp. A pair has its address, and of its two messages whether they are
-- there and already processed. What the observers do is not part of this; a list of the notifications
-- stands for it, and with them `req_tot` and `rsp_tot`, which count two kinds of them. `none` is an access outside of the chain of pairs.
pub mod Once
pub mod Addresses
pub mod Ends
pub mod Tests
use mathlib.Core.Option
use monitoring_tool.Prelude.{
  ℕ, ◌+◌, Bool, true, false, not, ◌&&◌, ◌||◌, Option, none, some, List, [], ◌∷◌, ◌++◌, ◌==◌,
  if◌then◌else◌,
}
use monitoring_tool.Prelude.Partial.{◌>>=◌}
use monitoring_tool.Capture.{has_port}
use monitoring_tool.FlowTable.{FlowSocket}

pub record Pair : Type 0 where
  pub address : ℕ
  pub request_header : Option Bool
  pub response_header : Option Bool

-- `pair_f` and `pair_e`.
pub record PairFlow : Type 0 where
  pub socket : FlowSocket
  pub processed : Bool
  pub pair_f : List Pair
  pub pair_e : Option ℕ

pub data Event : Type 0 where
  new_flow_received : Event
  flow_update : Event
  request_received : ℕ → Event
  response_received : ℕ → Event

-- The addresses and ports that an analysis asks for.
pub record Filter : Type 0 where
  pub client_ip : Option ℕ
  pub client_ports : List ℕ
  pub server_ip : Option ℕ
  pub server_ports : List ℕ

abbrev pub is_ip : Option ℕ → ℕ → Bool
is_ip none a = true
is_ip (some ip) a = ip == a

abbrev pub is_empty : List ℕ → Bool
is_empty [] = true
is_empty (p ∷ ports) = false

-- None of the four tests returns.
pub is_wanted : Filter → FlowSocket → Bool
is_wanted f s =
    is_ip f.client_ip s.saddr
    && (is_empty f.client_ports || has_port f.client_ports s.sport)
    && is_ip f.server_ip s.daddr
    && (is_empty f.server_ports
        || has_port f.server_ports s.dport
        || has_port f.server_ports s.sport)

-- A message that is there is marked as processed.
abbrev pub mark : Option Bool → Option Bool
mark none = none
mark (some processed) = some true

-- A pair behind the body of the loop: without a request its response is left as it is.
abbrev pub mark_pair : Option Bool → Pair → Pair
mark_pair none p = p
mark_pair (some processed) p = record p {
  request_header = some true;
  response_header = mark p.response_header;
}

-- Both messages are there and the response is processed.
abbrev pub is_done : Option Bool → Option Bool → Bool
is_done (some processed) (some true) = true
is_done (some processed) (some false) = false
is_done (some processed) none = false
is_done none response = false

abbrev pub request_news : ℕ → Option Bool → List Event
request_news a none = []
request_news a (some true) = []
request_news a (some false) = request_received a ∷ []

abbrev pub response_news : ℕ → (request response : Option Bool) → List Event
response_news a none response = []
response_news a (some processed) none = []
response_news a (some processed) (some true) = []
response_news a (some processed) (some false) = response_received a ∷ []

-- The chain of the flow once a pair is visited, where `kept` stands between `pair_f` and the pair: a pair
-- that is done is deleted, and `pair_f` is set to the next, if there is one.
abbrev pub chain_behind : (kept : List Pair) → Pair → (rest : List Pair) → List Pair
chain_behind kept p [] = kept ++ mark_pair p.request_header p ∷ []
chain_behind kept p (q ∷ rest) =
    if is_done p.request_header p.response_header
    then []
    else kept ++ mark_pair p.request_header p ∷ []

abbrev pub deleted_pair : Pair → (rest : List Pair) → List ℕ
deleted_pair p [] = []
deleted_pair p (q ∷ rest) =
    if is_done p.request_header p.response_header then p.address ∷ [] else []

-- What a walk leaves: the chain, the notifications in their order, and the pairs that were deleted.
pub record Extracted : Type 0 where
  pub pair_f : List Pair
  pub events : List Event
  pub deleted : List ℕ

unfoldable pub extract_pairs : (kept rest : List Pair) → Extracted
extract_pairs kept [] = record { pair_f = kept; events = []; deleted = [] }
extract_pairs kept (p ∷ rest) =
    let after = extract_pairs (chain_behind kept p rest) rest in
    record after {
      events =
          request_news p.address p.request_header
          ++ (response_news p.address p.request_header p.response_header ++ after.events);
      deleted = deleted_pair p rest ++ after.deleted;
    }

unfoldable pub extract_data : Filter → PairFlow → PairFlow × List Event × List ℕ
unfolding is_wanted extract_pairs
extract_data filter f =
    let walk = extract_pairs [] f.pair_f in
    if is_wanted filter f.socket
    then (
      record f { processed = true; pair_f = walk.pair_f },
      (if f.processed then [] else new_flow_received ∷ []) ++ (flow_update ∷ walk.events),
      walk.deleted,
    )
    else (f, [], [])

-- `pair_e->next = h`: what stood behind the pair at an address is cut off.
unfoldable pub link_pair : (pair_e : ℕ) → Pair → List Pair → Option (List Pair)
link_pair pair_e h [] = none
link_pair pair_e h (p ∷ pairs) =
    let rest = link_pair pair_e h pairs in
    if p.address == pair_e then some (p ∷ h ∷ []) else Option.map (λ (l : List Pair). p ∷ l) rest

unfoldable pub add_pair : PairFlow → Pair → Option PairFlow
unfolding link_pair
add_pair f h = do
  pairs ← elim f.pair_f [ [] ↦ some (h ∷ []) | p ∷ ps ↦ (do e ← f.pair_e; link_pair e h (p ∷ ps)) ]
  some (record f { pair_f = pairs; pair_e = some h.address })

-- `addRequest` and `addResponse` on the message of a pair: 1 where there is one already.
abbrev pub add_message : Option Bool → (processed : Bool) → Option Bool × ℕ
add_message none processed = (some processed, 0)
add_message (some message) processed = (some message, 1)
