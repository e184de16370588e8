-- ===== src/HashTable/Clears.antt =====
-- `Hash::clear`, src/hashTable.cpp.
use native.Mathlib.Nat.{mod-lt}
use monitoring_tool.Prelude.{
  ℕ, ◌+◌, ◌%◌, ◌≤◌, ◌<◌, ◌≡◌, refl, ap, ◌∙◌, Bool, true, Option, none, [], arith, ltb, leb, ◌&&◌,
  if◌then◌else◌,
}
use monitoring_tool.Bucket.{Bucket, slots_consumed}
use monitoring_tool.Bucket.Shape.{IsBucket}
use monitoring_tool.Bucket.Clears.{nodes_from, clear_buckets-empties, slots_consumed-zero}
use monitoring_tool.HashTable.{Node, Hash, find_node, find, clear, get_scnt}

module _ {V : Type 0} (t : Hash V) (h : (i : ℕ) → IsBucket (t.buckets i)) where
  cleared_bucket :
      (j : ℕ) → j < t.size → (clear t).0.buckets j ≡ record { chain = []; last = none; elm_cnt = 0 }
  unfolding clear
  cleared_bucket j below =
      let inside : leb 0 j && ltb j (0 + t.size) ≡ true = ground arith in
      (clear_buckets-empties 0 t.size t.buckets h).0 j ∙ rw inside refl

clear-size : {V : Type 0} (t : Hash V) → (clear t).0.size ≡ t.size
unfolding clear
clear-size t = refl

-- What `find` answers for a bucket.
abbrev found_in : {V : Type 0} (hash : V → ℕ) (same : V → V → Bool) → V → Bucket (Node V) → Option ℕ
found_in hash same v b = if ltb 0 b.elm_cnt then find_node hash same b.chain v else none

-- `clear` of a table with well-formed buckets deletes every node of its buckets once, in their order.
-- Afterwards the count is 0, no bucket is consumed, and no value is found.
pub clear-finds_nothing :
    {V : Type 0} (hash : V → ℕ) (same : V → V → Bool) (t : Hash V)
    → ((i : ℕ) → IsBucket (t.buckets i))
    → 1 ≤ t.size
    → ((v : V) → find hash same (clear t).0 v ≡ none)
      × ((clear t).1 ≡ nodes_from 0 t.size t.buckets)
      × ((clear t).0.cnt ≡ 0)
      × (get_scnt (clear t).0 ≡ 0)
clear-finds_nothing hash same t h full = (
  λ v.
      let k = hash v % t.size in
      let empty = cleared_bucket t h k (mod-lt (hash v) (omega arith)) in
      unfold find in
      (ap (λ (n : ℕ). found_in hash same v ((clear t).0.buckets (hash v % n))) (clear-size t)
        ∙ ap (found_in hash same v) empty),
  unfold clear in (clear_buckets-empties 0 t.size t.buckets h).1,
  unfold clear in refl,
  unfold get_scnt in
      (ap (λ (n : ℕ). slots_consumed 0 n (clear t).0.buckets) (clear-size t)
        ∙ slots_consumed-zero 0 t.size (clear t).0.buckets
            (λ j low high. ap (λ b. b.chain) (cleared_bucket t h j (omega arith)))),
)
