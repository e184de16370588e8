-- ===== src/Server/Connection/Tests.antt =====
-- A client that asks for HTTP on one interface and for an unknown protocol on another.
use monitoring_tool.Prelude.{
  ℕ, ◌≡◌, refl, Bool, false, ltb, none, some, List, [], ◌∷◌, ◌++◌, arith, length, replicate, take,
}
use monitoring_tool.Server.Varint.{encode_varint}
use monitoring_tool.Server.Connection.{
  Analysis, ProtocolMsg, InitMsg, default_metrics, http, active_loop, find_kind, connection_handler,
  rst, err_rate,
}
use monitoring_tool.Server.Connection.Kept.{active_loop-kept}
use monitoring_tool.Server.Connection.Starts.{
  outcome_for, analyses_for, connection_handler-outcome_for,
}

abbrev http_msg : ProtocolMsg
http_msg = record {
  id = 72 ∷ 84 ∷ 84 ∷ 80 ∷ [];
  activemetrics = 5;
  clientip = none;
  clientports = 65616 ∷ [];
  serverip = some 7;
  serverports = [];
}

abbrev unknown_msg : ProtocolMsg
unknown_msg = record http_msg { id = 70 ∷ 84 ∷ 80 ∷ [] }

abbrev init : InitMsg
init = record {
  netints =
      record { id = 101 ∷ []; protocols = http_msg ∷ [] }
      ∷ record { id = 102 ∷ []; protocols = unknown_msg ∷ [] }
      ∷ [];
  interval = 5;
  duration = 60;
}

-- An analysis that the timer stops ends.
abbrev is_timed : Analysis → Bool
is_timed a = ltb 0 a.duration

-- Without a duration nothing is started behind the first analysis.
abbrev endless : InitMsg
endless = record {
  netints =
      record { id = 101 ∷ []; protocols = http_msg ∷ [] }
      ∷ record { id = 102 ∷ []; protocols = http_msg ∷ [] }
      ∷ [];
  interval = 5;
  duration = 0;
}

started_first : length (analyses_for is_timed endless false 0 endless.netints) ≡ 1
unfolding find_kind
started_first = refl

started_one : length (analyses_for is_timed init false 0 init.netints) ≡ 1
unfolding find_kind
started_one = refl

active_loop-kept_example :
    active_loop 5 11 (default_metrics http) [] ≡ (rst ∷ err_rate ∷ [], err_rate ∷ rst ∷ [])
active_loop-kept_example = active_loop-kept 5 (default_metrics http) []

connection_handler-outcome_for_example :
    (prefix : List ℕ) × (encode_varint 10 20 ≡ some (prefix, length prefix))
    × (connection_handler take
          (λ msg. some init)
          is_timed
          false
          (prefix ++ (replicate 20 1 ++ 2 ∷ []))
        ≡ some (outcome_for is_timed init false 0 init.netints))
connection_handler-outcome_for_example =
    connection_handler-outcome_for take (λ msg. some init) is_timed false (replicate 20 1) (2 ∷ [])
      init (omega arith) (omega arith) refl refl
