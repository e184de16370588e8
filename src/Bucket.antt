-- ===== src/Bucket.antt =====
-- A bucket of a hash table: a doubly linked chain with a pointer to its last node and a count. Both
-- tables of the sniffer, c-http-sniffer/src/hashTable.cpp and src/flowHashTable.cpp, link and unlink
-- nodes by the same statements. The chain is a list, `last` a position in it; `none` is an access
-- through NULL.
pub mod Shape
pub mod Clears
use monitoring_tool.Prelude.{
  ℕ, zero, suc, ◌+◌, ◌-◌, Bool, true, false, ◌&&◌, Option, none, some, List, [], ◌∷◌, ◌++◌, ltb,
  ◌==◌, if◌then◌else◌, take, drop, length,
}
use monitoring_tool.Prelude.Partial.{◌>>=◌}
use mathlib.Core.Option

pub record Bucket (E : Type 0) : Type 0 where
  pub chain : List E
  pub last : Option ℕ
  pub elm_cnt : ℕ

abbrev pub empty_bucket : {E : Type 0} → Bucket E
empty_bucket = record { chain = []; last = none; elm_cnt = 0 }

abbrev pub is_null : {E : Type 0} → List E → Bool
is_null [] = true
is_null (e ∷ chain) = false

-- `b->last->next = n; b->last = n`.
unfoldable pub link_node : {E : Type 0} → Bucket E → E → Option (Bucket E)
link_node b n =
    if b.elm_cnt == 0 then some (record { chain = n ∷ []; last = some 0; elm_cnt = 1 }) else do
      l ← b.last
      some (record {
        chain = take (l + 1) b.chain ++ n ∷ [];
        last = some (l + 1);
        elm_cnt = b.elm_cnt + 1;
      })

-- The node at a position is taken out: the only one, the first, the last, one in between.
unfoldable pub unlink : {E : Type 0} → Bucket E → ℕ → Option (Bucket E)
unlink b i =
    let emptied = drop 1 b.chain in
    if b.elm_cnt == 1 && i == 0
    then some (record { chain = []; last = none; elm_cnt = 0 })
    else if i == 0
    then (if ltb 0 (length emptied)
        then some (record {
          chain = emptied;
          last = Option.map (λ (n : ℕ). n - 1) b.last;
          elm_cnt = b.elm_cnt - 1;
        })
        else none)
    else if i + 1 == length b.chain
    then some (record { chain = take i b.chain; last = some (i - 1); elm_cnt = b.elm_cnt - 1 })
    else some (record {
      chain = take i b.chain ++ drop (i + 1) b.chain;
      last = Option.map (λ (n : ℕ). n - 1) b.last;
      elm_cnt = b.elm_cnt - 1;
    })

-- `while (first != NULL)`: every node is deleted and uncounted. The nodes are answered in their order.
pub pop_all : {E : Type 0} → (chain : List E) → (elm_cnt : ℕ) → ℕ × List E
pop_all [] elm_cnt = (elm_cnt, [])
pop_all (e ∷ chain) elm_cnt = let rest = pop_all chain (elm_cnt - 1) in (rest.0, e ∷ rest.1)

unfoldable pub clear_bucket : {E : Type 0} → Bucket E → Bucket E × List E
unfolding pop_all
clear_bucket b =
    let popped = pop_all b.chain b.elm_cnt in
    (record { chain = []; last = none; elm_cnt = popped.0 }, popped.1)

-- The buckets from `k` on, `n` of them.
unfoldable pub clear_buckets : {E : Type 0} → (k n : ℕ) → (ℕ → Bucket E) → (ℕ → Bucket E) × List E
unfolding clear_bucket
clear_buckets k zero buckets = (buckets, [])
clear_buckets k (suc n) buckets =
    let one = clear_bucket (buckets k) in
    let rest = clear_buckets (k + 1) n (λ (i : ℕ). if i == k then one.0 else buckets i) in
    (rest.0, one.1 ++ rest.1)

-- How many of them have a first node.
unfoldable pub slots_consumed : {E : Type 0} → (k n : ℕ) → (ℕ → Bucket E) → ℕ
slots_consumed k zero buckets = 0
slots_consumed k (suc n) buckets =
    let rest = slots_consumed (k + 1) n buckets in
    if is_null (buckets k).chain then rest else 1 + rest
