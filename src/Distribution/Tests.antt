-- ===== src/Distribution/Tests.antt =====
-- A table with one bucket, where one value in three hundred and one is rare.
use monitoring_tool.Prelude.{
  ℕ, ◌≡◌, refl, none, some, List, [], ◌∷◌, ◌==◌, arith, replicate, length-replicate,
}
use monitoring_tool.Bucket.{Bucket}
use monitoring_tool.HashTable.{Node, Hash}
use monitoring_tool.Distribution.{
  CfItem, blank, cfl_init, Distribution, request, interval, distribution_new, run,
  on_interval_expired, extract_req_path, extract_req_method,
}
use monitoring_tool.Distribution.Reports.{HoldsItems, items_of}
use monitoring_tool.Distribution.Interval.{nodes, names_of, on_interval_expired-reports}
use monitoring_tool.Distribution.Counted.{IsCounted, run-IsCounted}

abbrev one_bucket : Bucket (Node ℕ)
one_bucket = record {
  chain = record { value = 7; cnt = 300 } ∷ record { value = 8; cnt = 1 } ∷ [];
  last = some 1;
  elm_cnt = 2;
}

abbrev table : Hash ℕ
table = record { cnt = 2; size = 1; buckets = λ i. one_bucket }

abbrev distribution : Distribution ℕ
distribution = record { ht = table; req_total = 301; cfl = cfl_init (replicate 100 blank) }

abbrev name : ℕ → List ℕ
name v = v ∷ []

frequent_one :
    items_of name 301 (nodes distribution)
    ≡ record { name = some (7 ∷ []); c_freq = (300, 301) } ∷ []
frequent_one = refl

on_interval_expired-reports_example :
    let (after, reported, freed) = on_interval_expired name distribution in
    (reported ≡ record { name = some (7 ∷ []); c_freq = (300, 301) } ∷ [])
    × (freed ≡ names_of reported)
    × HoldsItems after.cfl []
    × (after.ht ≡ table)
    × (after.req_total ≡ 301)
on_interval_expired-reports_example =
    on_interval_expired-reports name distribution
      (record { size = refl; room = length-replicate 100 blank; count = refl; items = refl })
      (omega arith)

run-IsCounted_example :
    (d : Distribution ℕ) × (reports : List (List CfItem)) × (run
        (λ v. v)
        ◌==◌
        name
        (request (some 7) ∷ request none ∷ interval ∷ [])
        distribution_new
      ≡ some (d, reports))
    × (d.req_total ≡ 2)
    × IsCounted d
run-IsCounted_example =
    run-IsCounted (λ v. v) ◌==◌ name (request (some 7) ∷ request none ∷ interval ∷ []) (omega arith)

-- "/a?b/c".
abbrev uri : List ℕ
uri = 47 ∷ 97 ∷ 63 ∷ 98 ∷ 47 ∷ 99 ∷ []

path_of_uri : extract_req_path uri ≡ 47 ∷ 97 ∷ 63 ∷ 98 ∷ 47 ∷ []
unfolding extract_req_path
path_of_uri = refl

method_of_uri : extract_req_method (some uri) ≡ some (47 ∷ 97 ∷ [])
unfolding extract_req_method
method_of_uri = refl
