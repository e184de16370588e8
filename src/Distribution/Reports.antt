-- ===== src/Distribution/Reports.antt =====
-- What a distribution reports at the end of an interval, `onIntervalExpired` of
-- c-http-sniffer/src/metrics/client.cpp, reqPath.cpp and reqMethod.cpp.

use mathlib.Core.List.{append_assoc, append-nil}
use mathlib.Core.Path.{transport}
use native.Mathlib.Nat.{suc-mul, mul-le-mul_right}
use monitoring_tool.Prelude.{
  ℕ, zero, suc, ◌+◌, ◌*◌, ◌≤◌, ◌<◌, ◌≡◌, refl, sym, ap, ◌∙◌, Bool, false, not, ◌&&◌, some, List, [],
  ◌∷◌, ◌++◌, if◌then◌else◌, ◌==◌, ltb, leb, arith, length, length-append, length-set, take, set,
  Bool-cases, inl, inr, ltb→lt,
}
use monitoring_tool.Bucket.{Bucket}
use monitoring_tool.HashTable.{Node}
use monitoring_tool.HashTable.Sums.{nodes_of, occurrences}
use monitoring_tool.Distribution.{
  CfItem, CfList, cfl_size, cfl_add, cfl_add_node, update_chain, update_buckets,
}

-- The first `count` items of the array are those of a list, which it has room for.
pub record HoldsItems (cfl : CfList) (xs : List CfItem) : Type 0 where
  pub size : cfl.size ≡ cfl_size
  pub room : length cfl.list ≡ cfl_size
  pub count : cfl.count ≡ length xs
  pub items : take cfl.count cfl.list ≡ xs

take-set :
    (n : ℕ) (xs : List CfItem) (v : CfItem)
    → n < length xs
    → take (n + 1) (set xs n v) ≡ take n xs ++ v ∷ []
take-set n [] v h = absurd (omega (arith, h))
take-set zero (x ∷ xs) v h = refl
take-set (suc n) (x ∷ xs) v h =
    let shift : suc n + 1 ≡ suc (n + 1) = omega arith in
    ap (λ (k : ℕ). take k (x ∷ set xs n v)) shift
    ∙ ap (λ (l : List CfItem). x ∷ l) (take-set n xs v (omega (arith, h)))

cfl_add-HoldsItems :
    (name : List ℕ) (freq : ℕ × ℕ) (cfl : CfList) (xs : List CfItem)
    → HoldsItems cfl xs
    → length xs < cfl_size
    → HoldsItems (cfl_add name freq cfl) (xs ++ record { name = some name; c_freq = freq } ∷ [])
unfolding cfl_add
cfl_add-HoldsItems name freq cfl xs h lt =
    let item : CfItem = record { name = some name; c_freq = freq } in
    let free : leb cfl.size cfl.count ≡ false = ground (arith, h.size, h.count, lt) in
    rw free (record {
      size = h.size;
      room = length-set cfl.list cfl.count item ∙ h.room;
      count = omega (arith, h.count, length-append xs (item ∷ []));
      items =
          take-set cfl.count cfl.list item (omega (arith, h.count, h.room, lt))
          ∙ ap (λ (l : List CfItem). l ++ item ∷ []) h.items;
    })

module _ {V : Type 0} (name_of : V → List ℕ) where
  -- A value that is reported, and the items of a list of nodes.
  abbrev pub is_frequent : (req_total : ℕ) → Node V → Bool
  is_frequent req_total n = not (req_total == 0) && ltb req_total (n.cnt * 100)

  abbrev pub item_of : (req_total : ℕ) → Node V → CfItem
  item_of req_total n = record { name = some (name_of n.value); c_freq = (n.cnt, req_total) }

  abbrev pub items_of : (req_total : ℕ) → List (Node V) → List CfItem
  items_of req_total [] = []
  items_of req_total (n ∷ nodes) =
      let later = items_of req_total nodes in
      if is_frequent req_total n then item_of req_total n ∷ later else later

  -- Every value that is reported takes more than a hundredth of the total.
  items-few :
      (req_total : ℕ) (nodes : List (Node V))
      → length (items_of req_total nodes) * (req_total + 1) ≤ occurrences nodes * 100
  items-few req_total [] = omega arith
  items-few req_total (n ∷ nodes) =
      let later = items-few req_total nodes in
      let few = length (items_of req_total nodes) in
      elim (Bool-cases (is_frequent req_total n)) [
        | inl frequent ↦
            let above : req_total < n.cnt * 100 = ground (arith, frequent) in
            rw frequent (omega (arith, later, above, suc-mul few (req_total + 1)))
        | inr other ↦ rw other (omega (arith, later))
      ]

  pub items-room :
      (req_total : ℕ) (nodes : List (Node V))
      → occurrences nodes ≤ req_total
      → length (items_of req_total nodes) < cfl_size
  items-room req_total nodes h =
      let few = length (items_of req_total nodes) in
      let most = items-few req_total nodes in
      elim (Bool-cases (ltb few cfl_size)) [
        | inl below ↦ ltb→lt few cfl_size below
        | inr above ↦
            let many : cfl_size ≤ few = ground (arith, above) in
            let product : cfl_size * (req_total + 1) ≤ few * (req_total + 1) =
              mul-le-mul_right (req_total + 1) many in
            absurd (omega (arith, most, product, h))
      ]

  cfl_add_node-HoldsItems :
      (req_total : ℕ) (n : Node V) (cfl : CfList) (xs : List CfItem)
      → HoldsItems cfl xs
      → length xs + length (items_of req_total (n ∷ [])) ≤ cfl_size
      → HoldsItems (cfl_add_node name_of req_total n cfl) (xs ++ items_of req_total (n ∷ []))
  unfolding cfl_add_node
  cfl_add_node-HoldsItems req_total n cfl xs h room =
      let kept : HoldsItems cfl (xs ++ []) =
        transport (ap (HoldsItems cfl) (sym (append-nil xs))) h in
      elim (Bool-cases (req_total == 0)) [
        | inl zero_total ↦ rw zero_total kept
        | inr some_total ↦ elim (Bool-cases (ltb req_total (n.cnt * 100))) [
          | inl frequent ↦
              let few : length xs < cfl_size = ground (arith, room, some_total, frequent) in
              rw (some_total, frequent)
                (cfl_add-HoldsItems (name_of n.value) (n.cnt, req_total) cfl xs h few)
          | inr rare ↦ rw (some_total, rare) kept
        ]
      ]

  items_of-append :
      (req_total : ℕ) (ns ms : List (Node V))
      → items_of req_total (ns ++ ms) ≡ items_of req_total ns ++ items_of req_total ms
  items_of-append req_total [] ms = refl
  items_of-append req_total (n ∷ ns) ms = elim (Bool-cases (is_frequent req_total n)) [
    | inl frequent ↦
        rw frequent
          (ap (λ (l : List CfItem). item_of req_total n ∷ l) (items_of-append req_total ns ms))
    | inr rare ↦ rw rare (items_of-append req_total ns ms)
  ]

  update_chain-HoldsItems :
      (req_total : ℕ) (chain : List (Node V)) (cfl : CfList) (xs : List CfItem)
      → HoldsItems cfl xs
      → length xs + length (items_of req_total chain) ≤ cfl_size
      → HoldsItems (update_chain name_of req_total chain cfl) (xs ++ items_of req_total chain)
  unfolding update_chain
  update_chain-HoldsItems req_total [] cfl xs h room =
      transport (ap (HoldsItems cfl) (sym (append-nil xs))) h
  update_chain-HoldsItems req_total (n ∷ chain) cfl xs h room =
      let first = items_of req_total (n ∷ []) in
      let rest = items_of req_total chain in
      let all = items_of-append req_total (n ∷ []) chain in
      let lengths : length (items_of req_total (n ∷ chain)) ≡ length first + length rest =
        ap length all ∙ length-append first rest in
      let now = cfl_add_node-HoldsItems req_total n cfl xs h (omega (arith, room, lengths)) in
      transport
        (ap
          (HoldsItems (update_chain name_of req_total chain (cfl_add_node name_of req_total n cfl)))
          (append_assoc xs first rest ∙ ap (λ (l : List CfItem). xs ++ l) (sym all)))
        (update_chain-HoldsItems req_total chain (cfl_add_node name_of req_total n cfl)
          (xs ++ first) now (omega (arith, room, lengths, length-append xs first)))

  pub update_buckets-HoldsItems :
      (req_total n i : ℕ) (buckets : ℕ → Bucket (Node V)) (cfl : CfList) (xs : List CfItem)
      → HoldsItems cfl xs
      → length xs + length (items_of req_total (nodes_of n i buckets)) ≤ cfl_size
      → HoldsItems
          (update_buckets name_of req_total n i buckets cfl)
          (xs ++ items_of req_total (nodes_of n i buckets))
  unfolding update_buckets
  update_buckets-HoldsItems req_total zero i buckets cfl xs h room =
      transport (ap (HoldsItems cfl) (sym (append-nil xs))) h
  update_buckets-HoldsItems req_total (suc n) i buckets cfl xs h room =
      let chain = (buckets i).chain in
      let first = items_of req_total chain in
      let rest = items_of req_total (nodes_of n (suc i) buckets) in
      let all = items_of-append req_total chain (nodes_of n (suc i) buckets) in
      let lengths = ap length all ∙ length-append first rest in
      let updated = update_chain name_of req_total chain cfl in
      let now = update_chain-HoldsItems req_total chain cfl xs h (omega (arith, room, lengths)) in
      transport
        (ap (HoldsItems (update_buckets name_of req_total n (suc i) buckets updated))
          (append_assoc xs first rest ∙ ap (λ (l : List CfItem). xs ++ l) (sym all)))
        (update_buckets-HoldsItems req_total n (suc i) buckets updated (xs ++ first) now
          (omega (arith, room, lengths, length-append xs first)))
