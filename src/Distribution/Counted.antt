-- ===== src/Distribution/Counted.antt =====
-- The values of a distribution's table against its number of requests, `onRequestReceived` of
-- c-http-sniffer/src/metrics/client.cpp, reqPath.cpp and reqMethod.cpp.

use monitoring_tool.Prelude.{
  ℕ, zero, suc, length-replicate, ◌+◌, ◌%◌, ◌^◌, ◌≤◌, ◌<◌, ◌≡◌, refl, ap, Bool, Option, none, some,
  List, [], ◌∷◌, arith,
}
use monitoring_tool.Prelude.Partial.{>>=-returns}
use native.Mathlib.Nat.{mod-lt}
use monitoring_tool.Bucket.{empty_bucket}
use monitoring_tool.Bucket.Shape.{IsBucket}
use monitoring_tool.HashTable.{hash_size, add}
use monitoring_tool.HashTable.Sums.{nodes_of, occurrences, add-occurrences}
use monitoring_tool.Distribution.{
  CfItem, Distribution, Notification, request, interval, distribution_new, run, on_request_received,
  on_interval_expired, cfl_size, blank,
}
use monitoring_tool.Distribution.Reports.{HoldsItems}
use monitoring_tool.Distribution.Interval.{nodes, on_interval_expired-reports}

-- The table has buckets, all well-formed, and its values have occurred no more often than requests were
-- received; the list is empty.
pub record IsCounted {V : Type 0} (d : Distribution V) : Type 0 where
  pub some_size : 0 < d.ht.size
  pub buckets : (i : ℕ) → IsBucket (d.ht.buckets i)
  pub counted : occurrences (nodes d) ≤ d.req_total
  pub cfl : HoldsItems d.cfl []

-- A request, whether it brings a value or not, keeps a distribution so.
on_request_received-IsCounted :
    {V : Type 0} (hash : V → ℕ) (same : V → V → Bool) (o : Option V) (d : Distribution V)
    → IsCounted d
    → d.req_total + 1 < 2 ^ 31
    → (d' : Distribution V) × (on_request_received hash same o d ≡ some d')
      × (d'.req_total ≡ d.req_total + 1)
      × IsCounted d'
unfolding on_request_received
on_request_received-IsCounted hash same none d h fits = (
  record d { req_total = (d.req_total + 1) % 2 ^ 32 },
  refl,
  omega (arith, fits),
  record {
    some_size = h.some_size;
    buckets = h.buckets;
    counted = omega (arith, h.counted, fits);
    cfl = h.cfl;
  },
)
on_request_received-IsCounted hash same (some v) d h fits =
    let (t', code, e, valid, size, more) =
      add-occurrences hash same d.ht v (mod-lt (hash v) h.some_size) h.buckets
        (omega (arith, fits, h.counted)) in
    (
      record d { ht = t'; req_total = (d.req_total + 1) % 2 ^ 32 },
      >>=-returns (add hash same d.ht v) _ e refl,
      omega (arith, fits),
      record {
        some_size = omega (arith, size, h.some_size);
        buckets = valid;
        counted = omega (arith, more, h.counted, fits);
        cfl = h.cfl;
      },
    )

on_interval_expired-IsCounted :
    {V : Type 0} (name_of : V → List ℕ) (d : Distribution V)
    → IsCounted d
    → IsCounted (on_interval_expired name_of d).0
unfolding on_interval_expired
on_interval_expired-IsCounted name_of d h =
    let (reported, freed, empty, same_ht, same_total) =
      on_interval_expired-reports name_of d h.cfl h.counted in
    record { some_size = h.some_size; buckets = h.buckets; counted = h.counted; cfl = empty }

interval-req_total :
    {V : Type 0} (name_of : V → List ℕ) (d : Distribution V)
    → (on_interval_expired name_of d).0.req_total ≡ d.req_total
unfolding on_interval_expired
interval-req_total name_of d = refl

empty_nodes : {V : Type 0} (n i : ℕ) → nodes_of {V = V} n i (λ j. empty_bucket) ≡ []
empty_nodes zero i = refl
empty_nodes (suc n) i = empty_nodes n (suc i)

pub distribution_new-IsCounted : {V : Type 0} → IsCounted (distribution_new {V = V})
distribution_new-IsCounted {V} = record {
  some_size = omega arith;
  buckets = λ i. record { elm_cnt = refl; last = refl };
  counted = omega (arith, ap occurrences (empty_nodes {V = V} hash_size 0));
  cfl = record { size = refl; room = length-replicate cfl_size blank; count = refl; items = refl };
}

-- The requests among the events.
abbrev pub requests : {V : Type 0} → List (Notification V) → ℕ
requests [] = 0
requests (request o ∷ events) = requests events + 1
requests (interval ∷ events) = requests events

run_keeps :
    {V : Type 0} (hash : V → ℕ) (same : V → V → Bool) (name_of : V → List ℕ)
    (events : List (Notification V)) (d : Distribution V)
    → IsCounted d
    → d.req_total + requests events < 2 ^ 31
    → (d' : Distribution V) × (reports : List (List CfItem)) × (run hash same name_of events d
        ≡ some (d', reports))
      × (d'.req_total ≡ d.req_total + requests events)
      × IsCounted d'
unfolding run
run_keeps hash same name_of [] d h fits = (d, [], refl, omega arith, h)
run_keeps hash same name_of (request o ∷ events) d h fits =
    let (v, e, one, k) = on_request_received-IsCounted hash same o d h (omega (arith, fits)) in
    let (u, reports, f, n, l) = run_keeps hash same name_of events v k (omega (arith, fits, one)) in
    (u, reports, >>=-returns (on_request_received hash same o d) _ e f, omega (arith, n, one), l)
run_keeps hash same name_of (interval ∷ events) d h fits =
    let v = (on_interval_expired name_of d).0 in
    let k = on_interval_expired-IsCounted name_of d h in
    let same_total = interval-req_total name_of d in
    let (u, reports, f, n, l) =
      run_keeps hash same name_of events v k (omega (arith, fits, same_total)) in
    (u, _, >>=-returns (run hash same name_of events v) _ f refl, omega (arith, n, same_total), l)

-- Whatever requests a new distribution is told of, fewer than 2 ^ 31, and whatever intervals end in
-- between, it never follows NULL, it has counted the requests, the values of its table have occurred no
-- more often than that, and between the events its list is empty.
pub run-IsCounted :
    {V : Type 0} (hash : V → ℕ) (same : V → V → Bool) (name_of : V → List ℕ)
    (events : List (Notification V))
    → requests events < 2 ^ 31
    → (d : Distribution V) × (reports : List (List CfItem)) × (run hash same name_of events
          distribution_new
        ≡ some (d, reports))
      × (d.req_total ≡ requests events)
      × IsCounted d
run-IsCounted hash same name_of events fits =
    let (d, reports, e, n, k) =
      run_keeps hash same name_of events distribution_new distribution_new-IsCounted
        (omega (arith, fits)) in
    (d, reports, e, omega (arith, n), k)
