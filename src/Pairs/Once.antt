-- ===== src/Pairs/Once.antt =====
-- No message is notified twice, `Protocol::extractData` of src/protocols/protocol.cpp.

use monitoring_tool.Prelude.{
  ℕ, ◌≡◌, refl, ap, ◌∙◌, Bool, true, false, Option, none, some, List, [], ◌∷◌, ◌++◌, if◌then◌else◌,
  All, All-append, Bool-cases, inl, inr,
}
use monitoring_tool.Pairs.{
  Pair, PairFlow, Event, new_flow_received, flow_update, request_received, response_received,
  Filter, is_wanted, mark_pair, is_done, request_news, response_news, chain_behind, extract_pairs,
  extract_data,
}

-- There is nothing new about a pair.
abbrev pub IsSettled : Pair → Type 0
IsSettled p =
    (request_news p.address p.request_header ≡ [])
    × (response_news p.address p.request_header p.response_header ≡ [])

mark_pair-IsSettled :
    (a : ℕ) (request response : Option Bool)
    → IsSettled (
        mark_pair request
          (record { address = a; request_header = request; response_header = response }))
mark_pair-IsSettled a none response = (refl, refl)
mark_pair-IsSettled a (some r) none = (refl, refl)
mark_pair-IsSettled a (some r) (some s) = (refl, refl)

chain_behind-IsSettled :
    (kept : List Pair) (p : Pair) (rest : List Pair)
    → All IsSettled kept
    → All IsSettled (chain_behind kept p rest)
chain_behind-IsSettled kept p [] h =
    All-append IsSettled kept (mark_pair p.request_header p ∷ []) h
      (mark_pair-IsSettled p.address p.request_header p.response_header, tt)
chain_behind-IsSettled kept p (q ∷ rest) h =
    elim (Bool-cases (is_done p.request_header p.response_header)) [
      | inl done ↦ rw done tt
      | inr other ↦ rw other (
          All-append IsSettled kept (mark_pair p.request_header p ∷ []) h
            (mark_pair-IsSettled p.address p.request_header p.response_header, tt))
    ]

extract_pairs-IsSettled :
    (kept rest : List Pair) → All IsSettled kept → All IsSettled (extract_pairs kept rest).pair_f
unfolding extract_pairs
extract_pairs-IsSettled kept [] h = h
extract_pairs-IsSettled kept (p ∷ rest) h =
    extract_pairs-IsSettled (chain_behind kept p rest) rest (chain_behind-IsSettled kept p rest h)

extract_pairs_quiet :
    (kept rest : List Pair) → All IsSettled rest → (extract_pairs kept rest).events ≡ []
unfolding extract_pairs
extract_pairs_quiet kept [] h = refl
extract_pairs_quiet kept (p ∷ rest) h =
    rw (h.0.0, h.0.1) (extract_pairs_quiet (chain_behind kept p rest) rest h.1)

-- The requests, and the responses, that a list of notifications is about.
abbrev pub requests_in : List Event → List ℕ
requests_in [] = []
requests_in (request_received a ∷ events) = a ∷ requests_in events
requests_in (response_received a ∷ events) = requests_in events
requests_in (new_flow_received ∷ events) = requests_in events
requests_in (flow_update ∷ events) = requests_in events

abbrev pub responses_in : List Event → List ℕ
responses_in [] = []
responses_in (request_received a ∷ events) = responses_in events
responses_in (response_received a ∷ events) = a ∷ responses_in events
responses_in (new_flow_received ∷ events) = responses_in events
responses_in (flow_update ∷ events) = responses_in events

-- The pairs with a request that is not processed, and those with a request and a response that is not.
abbrev pub open_requests : List Pair → List ℕ
open_requests [] = []
open_requests (p ∷ pairs) = elim p.request_header [
  | some false ↦ p.address ∷ open_requests pairs
  | _ ↦ open_requests pairs
]

abbrev pub open_responses : List Pair → List ℕ
open_responses [] = []
open_responses (p ∷ pairs) = elim p.request_header [
  | none ↦ open_responses pairs
  | some r ↦ elim p.response_header [
    | some false ↦ p.address ∷ open_responses pairs
    | _ ↦ open_responses pairs
  ]
]

-- The notifications about one pair, before others.
news :
    (a : ℕ) (request response : Option Bool) (pairs : List Pair) (events : List Event)
    → requests_in events ≡ open_requests pairs
    → responses_in events ≡ open_responses pairs
    → (requests_in (request_news a request ++ (response_news a request response ++ events))
        ≡ open_requests
            (record { address = a; request_header = request; response_header = response } ∷ pairs))
      × (responses_in (request_news a request ++ (response_news a request response ++ events))
          ≡ open_responses (
              record { address = a; request_header = request; response_header = response } ∷ pairs))
news a none response pairs events e f = (e, f)
news a (some true) none pairs events e f = (e, f)
news a (some true) (some true) pairs events e f = (e, f)
news a (some true) (some false) pairs events e f = (e, ap (λ (l : List ℕ). a ∷ l) f)
news a (some false) none pairs events e f = (ap (λ (l : List ℕ). a ∷ l) e, f)
news a (some false) (some true) pairs events e f = (ap (λ (l : List ℕ). a ∷ l) e, f)
news a (some false) (some false) pairs events e f =
    (ap (λ (l : List ℕ). a ∷ l) e, ap (λ (l : List ℕ). a ∷ l) f)

extract_pairs-news :
    (kept rest : List Pair)
    → (requests_in (extract_pairs kept rest).events ≡ open_requests rest)
      × (responses_in (extract_pairs kept rest).events ≡ open_responses rest)
unfolding extract_pairs
extract_pairs-news kept [] = (refl, refl)
extract_pairs-news kept (p ∷ rest) =
    let (e, f) = extract_pairs-news (chain_behind kept p rest) rest in
    news p.address p.request_header p.response_header rest
      (extract_pairs (chain_behind kept p rest) rest).events e f

-- What a flow that is asked for becomes, and its notifications.
abbrev pub data_of : PairFlow → PairFlow × List Event × List ℕ
data_of f =
    let walk = extract_pairs [] f.pair_f in
    (
      record f { processed = true; pair_f = walk.pair_f },
      (if f.processed then [] else new_flow_received ∷ []) ++ (flow_update ∷ walk.events),
      walk.deleted,
    )

pub extract_data-wanted :
    (filter : Filter) (f : PairFlow)
    → is_wanted filter f.socket ≡ true
    → extract_data filter f ≡ data_of f
unfolding extract_data
extract_data-wanted filter f wanted = ap (λ (b : Bool). if b then data_of f else (f, [], [])) wanted

requests_in_update :
    (b : Bool) (events : List Event)
    → requests_in ((if b then [] else new_flow_received ∷ []) ++ (flow_update ∷ events))
      ≡ requests_in events
requests_in_update true events = refl
requests_in_update false events = refl

responses_in_update :
    (b : Bool) (events : List Event)
    → responses_in ((if b then [] else new_flow_received ∷ []) ++ (flow_update ∷ events))
      ≡ responses_in events
responses_in_update true events = refl
responses_in_update false events = refl

-- On a flow that the analysis asks for, `extractData` notifies of exactly the pairs whose request is not
-- processed, and of exactly those with a request whose response is not, each once and in the order of
-- the chain. Called again on the flow that it leaves, it notifies of the flow's update and of nothing
-- else.
pub extract_data_once :
    (filter : Filter) (f : PairFlow)
    → is_wanted filter f.socket ≡ true
    → (requests_in (extract_data filter f).1 ≡ open_requests f.pair_f)
      × (responses_in (extract_data filter f).1 ≡ open_responses f.pair_f)
      × ((extract_data filter (extract_data filter f).0).1 ≡ flow_update ∷ [])
extract_data_once filter f wanted =
    let walk = extract_pairs [] f.pair_f in
    let (e, g) = extract_pairs-news [] f.pair_f in
    let quiet = extract_pairs_quiet [] walk.pair_f (extract_pairs-IsSettled [] f.pair_f tt) in
    rw (extract_data-wanted filter f wanted, extract_data-wanted filter (data_of f).0 wanted)
      (
        requests_in_update f.processed walk.events ∙ e,
        responses_in_update f.processed walk.events ∙ g,
        ap (λ (events : List Event). flow_update ∷ events) quiet,
      )
