-- ===== src/Distribution.antt =====
-- The metrics that report how often each value occurs: c-http-sniffer/src/cf_list.c, `MetricCumDistr` of
-- src/metrics/metricCumDistr.cpp, and `Client`, `ReqPath` and `ReqMethod` of the files beside it. The
-- quotient of two ints is kept as the pair of them: it is above MIN_FREQ, as a double too, exactly if a
-- hundred times the first is above the second. A name is its text, `none` is NULL.
pub mod Reports
pub mod Interval
pub mod Counted
pub mod Paths
pub mod Tests
use mathlib.Core.Option
use monitoring_tool.Prelude.{
  ℕ, zero, suc, ◌+◌, ◌*◌, ◌%◌, ◌^◌, Bool, true, false, Option, none, some, List, [], ◌∷◌, ◌++◌, ltb,
  leb, ◌==◌, if◌then◌else◌, take, set, replicate, get_elem?,
}
use monitoring_tool.Prelude.Partial.{◌>>=◌}
use monitoring_tool.Bucket.{Bucket}
use monitoring_tool.HashTable.{Node, Hash, new_hash, add}

pub record CfItem : Type 0 where
  pub name : Option (List ℕ)
  pub c_freq : ℕ × ℕ

-- The array, of CFL_SIZE items.
pub record CfList : Type 0 where
  pub list : List CfItem
  pub size : ℕ
  pub count : ℕ

abbrev pub cfl_size : ℕ
cfl_size = 100

abbrev pub blank : CfItem
blank = record { name = none; c_freq = (0, 1) }

abbrev pub cfl_init : List CfItem → CfList
cfl_init list = record { list = list; size = cfl_size; count = 0 }

unfoldable pub cfl_add : List ℕ → (c_freq : ℕ × ℕ) → CfList → CfList
cfl_add name c_freq cfl = if leb cfl.size cfl.count then cfl else record cfl {
  list = set cfl.list cfl.count (record { name = some name; c_freq = c_freq });
  count = cfl.count + 1;
}

abbrev pub freed_name : Option CfItem → List (Option (List ℕ)) → List (Option (List ℕ))
freed_name none names = names
freed_name (some item) names = item.name ∷ names

-- The loop of `cfl_delete` over the `n` items from `i` on: the array, and the names that are freed.
unfoldable pub delete_loop : (n i : ℕ) → List CfItem → List CfItem × List (Option (List ℕ))
delete_loop zero i list = (list, [])
delete_loop (suc n) i list =
    let later = delete_loop n (suc i) (set list i blank) in
    (later.0, freed_name (get_elem? list i) later.1)

unfoldable pub cfl_delete : CfList → CfList × List (Option (List ℕ))
unfolding delete_loop
cfl_delete cfl =
    let (list, freed) = delete_loop cfl.count 0 cfl.list in
    (record cfl { list = list; count = 0 }, freed)

-- A distribution over values of type `V`.
pub record Distribution (V : Type 0) : Type 0 where
  pub ht : Hash V
  pub req_total : ℕ
  pub cfl : CfList

module _ {V : Type 0} (name_of : V → List ℕ) where
  -- `cflAdd` of the three metrics.
  unfoldable pub cfl_add_node : (req_total : ℕ) → Node V → CfList → CfList
  unfolding cfl_add
  cfl_add_node req_total n cfl =
      if req_total == 0
      then cfl
      else if ltb req_total (n.cnt * 100)
      then cfl_add (name_of n.value) (n.cnt, req_total) cfl
      else cfl

  -- The walk along a bucket, and the one over the `n` buckets from `i` on.
  unfoldable pub update_chain : (req_total : ℕ) → List (Node V) → CfList → CfList
  unfolding cfl_add_node
  update_chain req_total [] cfl = cfl
  update_chain req_total (n ∷ chain) cfl =
      update_chain req_total chain (cfl_add_node req_total n cfl)

  unfoldable pub update_buckets : (req_total n i : ℕ) → (ℕ → Bucket (Node V)) → CfList → CfList
  unfolding update_chain
  update_buckets req_total zero i buckets cfl = cfl
  update_buckets req_total (suc n) i buckets cfl =
      update_buckets req_total n (suc i) buckets (update_chain req_total (buckets i).chain cfl)

  unfoldable pub cfl_update : Distribution V → CfList
  unfolding update_buckets
  cfl_update d = update_buckets d.req_total d.ht.size 0 d.ht.buckets d.cfl

  -- `onIntervalExpired`: the distribution, the items that `sendMsg` reads and the names that are freed.
  unfoldable pub on_interval_expired :
      Distribution V → Distribution V × List CfItem × List (Option (List ℕ))
  unfolding cfl_update cfl_delete
  on_interval_expired d =
      let cfl = cfl_update d in
      let (cfl', freed) = cfl_delete cfl in
      (record d { cfl = cfl' }, take cfl.count cfl.list, freed)

-- `onRequestReceived`: `Client` always has a value; `ReqPath` and `ReqMethod` have none without an URI.
-- `reqTotal` is an int as its 32 bits.
unfoldable pub on_request_received :
    {V : Type 0}
    → (hash : V → ℕ) → (same : V → V → Bool) → Option V
    → Distribution V
    → Option (Distribution V)
unfolding add
on_request_received hash same none d = some (record d { req_total = (d.req_total + 1) % 2 ^ 32 })
on_request_received hash same (some v) d = do
  (ht, code) ← add hash same d.ht v
  some (record d { ht = ht; req_total = (d.req_total + 1) % 2 ^ 32 })

-- What a distribution is told.
pub data Notification (V : Type 0) : Type 0 where
  request : Option V → Notification V
  interval : Notification V

-- The constructor, with an array of blank items.
abbrev pub distribution_new : {V : Type 0} → Distribution V
distribution_new = record {
  ht = new_hash;
  req_total = 0;
  cfl = cfl_init (replicate cfl_size blank);
}

-- The distribution behind a sequence of events, and what it has reported, the last interval last.
unfoldable pub run :
    {V : Type 0}
    → (hash : V → ℕ) → (same : V → V → Bool) → (name_of : V → List ℕ) → List (Notification V)
    → Distribution V
    → Option (Distribution V × List (List CfItem))
unfolding on_request_received on_interval_expired
run hash same name_of [] d = some (d, [])
run hash same name_of (request o ∷ events) d =
    on_request_received hash same o d >>= λ d'. run hash same name_of events d'
run hash same name_of (interval ∷ events) d =
    let (d', reported, freed) = on_interval_expired name_of d in
    run hash same name_of events d' >>= λ r. some (r.0, reported ∷ r.1)

-- `std::string::find` and `find_last_of`, `none` is npos.
unfoldable pub find_char : ℕ → List ℕ → Option ℕ
find_char c [] = none
find_char c (b ∷ bs) = let later = find_char c bs in if b == c then some 0 else Option.map suc later

unfoldable pub find_last_of : ℕ → List ℕ → Option ℕ
find_last_of c [] = none
find_last_of c (b ∷ bs) =
    let later = find_last_of c bs in
    elim later [ some n ↦ some (suc n) | none ↦ if b == c then some 0 else none ]

-- `substr(0, n)`, of the whole text for npos.
abbrev pub substr_to : Option ℕ → List ℕ → List ℕ
substr_to none uri = uri
substr_to (some n) uri = take n uri

unfoldable pub extract_req_method : Option (List ℕ) → Option (List ℕ)
unfolding find_char
extract_req_method uri = Option.map (λ (u : List ℕ). substr_to (find_char 63 u) u) uri

unfoldable pub extract_req_path : List ℕ → List ℕ
unfolding find_char find_last_of
extract_req_path uri = elim (find_last_of 47 uri) [
  | none ↦ substr_to (find_char 63 uri) uri
  | some last ↦ take (last + 1) uri
]
