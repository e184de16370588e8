-- ===== src/Pairs/Ends.antt =====
-- The chain of pairs and its last pair, `Flow::add_pair` of src/flow.cpp and `Protocol::extractData` of
-- src/protocols/protocol.cpp.
use mathlib.Core.List.{append_assoc}
use mathlib.Core.Path.{transport}
use monitoring_tool.Prelude.{
  ℕ, ◌≡◌, ◌≢◌, refl, sym, ap, ◌∙◌, Bool, true, false, Option, none, some, List, [], ◌∷◌, ◌++◌,
  arith, if◌then◌else◌, length, length-append, All, All-append, Bool-cases, inl, inr,
}
use monitoring_tool.FlowTable.{FlowSocket}
use monitoring_tool.Pairs.{
  Pair, PairFlow, Filter, is_wanted, is_done, extract_pairs, extract_data, add_pair,
}
use monitoring_tool.Pairs.Once.{data_of, extract_data-wanted}
use monitoring_tool.Pairs.Addresses.{
  addresses, last_of, IsDistinct, IsPairFlow, addresses-append, last_of-append, last_of-suffix,
  length-addresses, IsDistinct-behind, link_pair-last, last_of-some, IsDistinct-snoc,
  extract_pairs-deleted, extract_pairs-suffix, extract_pairs-cut, All-pairs, All-behind,
  distinct_around,
}

linked-IsPairFlow :
    (f : PairFlow) (h : Pair)
    → IsPairFlow f
    → All (λ (a : ℕ). a ≢ h.address) (addresses f.pair_f)
    → IsPairFlow (record f { pair_f = f.pair_f ++ h ∷ []; pair_e = some h.address })
linked-IsPairFlow f h valid fresh = record {
  last = λ n. sym (
      ap last_of (addresses-append f.pair_f (h ∷ []))
      ∙ last_of-append (addresses f.pair_f) h.address []);
  distinct =
      rw (addresses-append f.pair_f (h ∷ []))
        (IsDistinct-snoc (addresses f.pair_f) h.address valid.distinct fresh);
}

add_pair-links :
    (s : FlowSocket) (b : Bool) (pairs : List Pair) (e : Option ℕ) (h : Pair)
    → IsPairFlow (record { socket = s; processed = b; pair_f = pairs; pair_e = e })
    → add_pair (record { socket = s; processed = b; pair_f = pairs; pair_e = e }) h
      ≡ some
          (record { socket = s; processed = b; pair_f = pairs ++ h ∷ []; pair_e = some h.address })
unfolding add_pair
add_pair-links s b [] e h valid = refl
add_pair-links s b (p ∷ pairs) e h valid =
    let (a, last) = last_of-some p.address (addresses pairs) in
    rw (valid.last (omega arith) ∙ last, link_pair-last a h p pairs last valid.distinct) refl

-- `add_pair` of a pair at a new address never fails on a flow whose `pair_e` is the last pair of its
-- chain: the pair stands behind all others, and `pair_e` is the last pair again.
pub add_pair-IsPairFlow :
    (f : PairFlow) (h : Pair)
    → IsPairFlow f
    → All (λ (a : ℕ). a ≢ h.address) (addresses f.pair_f)
    → (g : PairFlow) × (add_pair f h ≡ some g) × (g.pair_f ≡ f.pair_f ++ h ∷ []) × IsPairFlow g
add_pair-IsPairFlow f h valid fresh = (
  record f { pair_f = f.pair_f ++ h ∷ []; pair_e = some h.address },
  add_pair-links f.socket f.processed f.pair_f f.pair_e h valid,
  refl,
  linked-IsPairFlow f h valid fresh,
)

walked : (f : PairFlow) → IsPairFlow f → IsPairFlow (data_of f).0
walked f h =
    let left = (extract_pairs [] f.pair_f).pair_f in
    let (gone, e, n) = extract_pairs-suffix [] f.pair_f in
    record {
      last = λ m.
          h.last (
            omega (
              arith,
              m,
              ap length e,
              length-append gone (addresses left),
              length-addresses f.pair_f,
              length-addresses left,
            ))
          ∙ ap last_of e
          ∙ last_of-suffix gone left m;
      distinct = IsDistinct-behind gone (addresses left) (rw e at h.distinct);
    }

extract_data-unwanted :
    (filter : Filter) (f : PairFlow)
    → is_wanted filter f.socket ≡ false
    → extract_data filter f ≡ (f, [], [])
unfolding extract_data
extract_data-unwanted filter f other = ap (λ (b : Bool). if b then data_of f else (f, [], [])) other

-- `extractData` keeps `pair_e` the last pair of the chain, and the addresses distinct.
pub extract_data-IsPairFlow :
    (filter : Filter) (f : PairFlow) → IsPairFlow f → IsPairFlow (extract_data filter f).0
extract_data-IsPairFlow filter f h = elim (Bool-cases (is_wanted filter f.socket)) [
  | inl wanted ↦ rw (extract_data-wanted filter f wanted) (walked f h)
  | inr other ↦ rw (extract_data-unwanted filter f other) h
]

is_done-waiting : (request : Option Bool) → is_done request none ≡ false
is_done-waiting none = refl
is_done-waiting (some processed) = refl

-- A pair without a response, anywhere in front of a pair that is done and is not the last, is lost: the
-- next `extractData` of the flow leaves it neither in the chain nor among the pairs that it deletes.
pub extract_data_loses :
    (filter : Filter) (f : PairFlow) (front middle rest : List Pair) (w p q : Pair)
    → is_wanted filter f.socket ≡ true
    → IsPairFlow f
    → f.pair_f ≡ front ++ (w ∷ (middle ++ (p ∷ q ∷ rest)))
    → w.response_header ≡ none
    → is_done p.request_header p.response_header ≡ true
    → All (λ (a : ℕ). w.address ≢ a) (addresses (extract_data filter f).0.pair_f)
      × All (λ (a : ℕ). w.address ≢ a) (extract_data filter f).2
extract_data_loses filter f front middle rest w p q wanted valid shape response done =
    let other = λ (a : ℕ). w.address ≢ a in
    let behind = middle ++ (p ∷ q ∷ rest) in
    let split = addresses-append front (w ∷ behind) in
    let distinct : IsDistinct (addresses front ++ (w.address ∷ addresses behind)) =
      rw (ap addresses shape ∙ split) at valid.distinct in
    let (before, after) = distinct_around (addresses front) (addresses behind) w.address distinct in
    let last = rw (addresses-append middle (p ∷ q ∷ rest)) at after in
    let open_pair : is_done w.request_header w.response_header ≡ false =
      ap (is_done w.request_header) response ∙ is_done-waiting w.request_header in
    let cut =
      extract_pairs-cut other [] (front ++ (w ∷ middle)) p q rest done
        (All-behind other (addresses middle) (addresses (p ∷ q ∷ rest)) last).1 in
    rw (extract_data-wanted filter f wanted, shape)
      (
        transport
            (ap (λ (l : List Pair). All other (addresses (extract_pairs [] l).pair_f))
              (append_assoc front (w ∷ middle) (p ∷ q ∷ rest)))
            cut,
        extract_pairs-deleted other [] (front ++ (w ∷ behind)) (
            All-append _ front (w ∷ behind) (All-pairs other front before)
              (λ yes. absurd (ground (arith, open_pair, yes)), All-pairs other behind after)),
      )
