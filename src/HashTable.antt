-- ===== src/HashTable.antt =====
-- The hash table of the metrics, c-http-sniffer/include/hashTable.hpp and src/hashTable.cpp. What a
-- `Hashable` brings, `hash` and `compare`, are parameters; `same` says whether `compare` answers 0. The
-- chain of a bucket is a list, its `last` a position in it; `create` and `find` hold the mutex of the
-- bucket, what `add` and `remove` do to the node found does not. `none` is an access through NULL.
pub mod Counts
pub mod Adds
pub mod Sums
pub mod Removes
pub mod Clears
pub mod Tests
use monitoring_tool.Prelude.{
  ℕ, zero, suc, ◌+◌, ◌-◌, ◌%◌, ◌^◌, Bool, true, false, ◌&&◌, Option, none, some, List, [], ◌∷◌,
  ◌++◌, ltb, ◌==◌, if◌then◌else◌, take, drop, length,
}
use monitoring_tool.Bucket.{clear_buckets, slots_consumed, Bucket, empty_bucket, link_node, unlink}
use monitoring_tool.Prelude.Partial.{◌>>=◌}
use mathlib.Core.Option

pub record Node (V : Type 0) : Type 0 where
  pub value : V
  pub cnt : ℕ

-- The buckets by their index.
pub record Hash (V : Type 0) : Type 0 where
  pub cnt : ℕ
  pub size : ℕ
  pub buckets : ℕ → Bucket (Node V)

-- HASH_SIZE.
abbrev pub hash_size : ℕ
hash_size = 13200

abbrev pub new_node : {V : Type 0} → V → Node V
new_node v = record { value = v; cnt = 1 }

abbrev pub new_hash : {V : Type 0} → Hash V
new_hash = record { cnt = 0; size = hash_size; buckets = λ i. empty_bucket }

-- The table with another bucket at an index.
abbrev pub with_bucket : {V : Type 0} → Hash V → ℕ → Bucket (Node V) → Hash V
with_bucket t k b = record t { buckets = λ (i : ℕ). if i == k then b else t.buckets i }

module _ {V : Type 0} (hash : V → ℕ) (same : V → V → Bool) where
  -- The walk along a chain, to the position of the node.
  pub find_node : List (Node V) → V → Option ℕ
  find_node [] v = none
  find_node (e ∷ es) v =
      let rest = find_node es v in if same v e.value then some 0 else Option.map suc rest

  pub find : Hash V → V → Option ℕ
  unfolding find_node
  find t v =
      let b = t.buckets (hash v % t.size) in if ltb 0 b.elm_cnt then find_node b.chain v else none

  unfoldable pub create : Hash V → V → Option (Hash V)
  unfolding link_node
  create t v = do
    b ← link_node (t.buckets (hash v % t.size)) (new_node v)
    some (record (with_bucket t (hash v % t.size) b) { cnt = t.cnt + 1 })

  -- `e->cnt++` at a position, on an int as its 32 bits.
  pub count_up : List (Node V) → ℕ → List (Node V)
  count_up [] i = []
  count_up (e ∷ es) zero = record e { cnt = (e.cnt + 1) % 2 ^ 32 } ∷ es
  count_up (e ∷ es) (suc i) = e ∷ count_up es i

  abbrev pub counted_up : Hash V → V → ℕ → Hash V
  counted_up t v i =
      let b = t.buckets (hash v % t.size) in
      with_bucket t (hash v % t.size) (record b { chain = count_up b.chain i })

  -- The table afterwards and the value returned.
  pub add_found : Hash V → V → Option ℕ → Option (Hash V × ℕ)
  unfolding create count_up
  add_found t v none = do t' ← create t v; some (t', 0)
  add_found t v (some i) = some (counted_up t v i, 1)

  unfoldable pub add : Hash V → V → Option (Hash V × ℕ)
  unfolding find add_found
  add t v = add_found t v (find t v)

  -- The table afterwards, and whether a node was taken from it.
  pub remove_found : Hash V → V → Option ℕ → Option (Hash V × Bool)
  unfolding unlink
  remove_found t v none = some (t, false)
  remove_found t v (some i) = do
    b ← unlink (t.buckets (hash v % t.size)) i
    some (record (with_bucket t (hash v % t.size) b) { cnt = t.cnt - 1 }, true)

  unfoldable pub remove : Hash V → V → Option (Hash V × Bool)
  unfolding find remove_found
  remove t v = remove_found t v (find t v)

-- `clear`, with the nodes that it deletes with their values, in order.
unfoldable pub clear : {V : Type 0} → Hash V → Hash V × List (Node V)
unfolding clear_buckets
clear t =
    let cleared = clear_buckets 0 t.size t.buckets in
    (record t { buckets = cleared.0; cnt = 0 }, cleared.1)

unfoldable pub get_scnt : {V : Type 0} → Hash V → ℕ
unfolding slots_consumed
get_scnt t = slots_consumed 0 t.size t.buckets
