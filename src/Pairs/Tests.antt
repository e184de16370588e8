-- ===== src/Pairs/Tests.antt =====
-- Three pairs of a flow.
use monitoring_tool.Prelude.{ℕ, ◌≡◌, ◌≢◌, refl, true, false, none, some, [], ◌∷◌, ◌++◌, arith, All}
use monitoring_tool.FlowTable.{FlowSocket}
use monitoring_tool.Pairs.{
  Pair, PairFlow, flow_update, request_received, response_received, new_flow_received, Filter,
  is_wanted, extract_data, add_pair,
}
use monitoring_tool.Pairs.Once.{
  requests_in, responses_in, open_requests, open_responses, extract_data_once,
}
use monitoring_tool.Pairs.Addresses.{addresses, IsPairFlow}
use monitoring_tool.Pairs.Ends.{add_pair-IsPairFlow, extract_data-IsPairFlow, extract_data_loses}

abbrev every_flow : Filter
every_flow = record {
  client_ip = none;
  client_ports = [];
  server_ip = none;
  server_ports = 80 ∷ [];
}

abbrev socket : FlowSocket
socket = record { saddr = 10; daddr = 20; sport = 4000; dport = 80 }

abbrev waiting : Pair
waiting = record { address = 1; request_header = some true; response_header = none }

abbrev done : Pair
done = record { address = 2; request_header = some true; response_header = some true }

abbrev fresh : Pair
fresh = record { address = 3; request_header = some false; response_header = some false }

abbrev flow : PairFlow
flow = record {
  socket = socket;
  processed = false;
  pair_f = waiting ∷ done ∷ fresh ∷ [];
  pair_e = some 3;
}

flow_news :
    (extract_data every_flow flow).1
    ≡ new_flow_received ∷ flow_update ∷ request_received 3 ∷ response_received 3 ∷ []
unfolding extract_data
flow_news = refl

flow-IsPairFlow : IsPairFlow flow
flow-IsPairFlow = record {
  last = λ h. refl;
  distinct = ((omega arith, (omega arith, tt)), ((omega arith, tt), (tt, tt)));
}

extract_data_once_example :
    (requests_in (extract_data every_flow flow).1 ≡ open_requests flow.pair_f)
    × (responses_in (extract_data every_flow flow).1 ≡ open_responses flow.pair_f)
    × ((extract_data every_flow (extract_data every_flow flow).0).1 ≡ flow_update ∷ [])
unfolding is_wanted
extract_data_once_example = extract_data_once every_flow flow refl

add_pair-IsPairFlow_example :
    (g : PairFlow) × (add_pair flow
        (record { address = 4; request_header = none; response_header = none })
      ≡ some g)
    × (g.pair_f
        ≡ flow.pair_f ++ record { address = 4; request_header = none; response_header = none } ∷ [])
    × IsPairFlow g
add_pair-IsPairFlow_example =
    add_pair-IsPairFlow flow (record { address = 4; request_header = none; response_header = none })
      flow-IsPairFlow (omega arith, (omega arith, (omega arith, tt)))

extract_data-IsPairFlow_example : IsPairFlow (extract_data every_flow flow).0
extract_data-IsPairFlow_example = extract_data-IsPairFlow every_flow flow flow-IsPairFlow

extract_data_loses_example :
    All (λ (a : ℕ). waiting.address ≢ a) (addresses (extract_data every_flow flow).0.pair_f)
    × All (λ (a : ℕ). waiting.address ≢ a) (extract_data every_flow flow).2
unfolding is_wanted
extract_data_loses_example =
    extract_data_loses every_flow flow [] [] [] waiting done fresh refl flow-IsPairFlow refl refl
      refl
