-- ===== src/Bucket/Clears.antt =====
-- Clearing all buckets, `clear` of src/hashTable.cpp and of src/flowHashTable.cpp.
use monitoring_tool.Prelude.{
  ℕ, zero, suc, ◌+◌, ◌-◌, ◌≤◌, ◌<◌, ◌≡◌, refl, ap, ◌∙◌, none, List, [], ◌∷◌, ◌++◌, arith, ltb, leb,
  ◌&&◌, ◌==◌, if◌then◌else◌, length, Bool-cases, inl, inr,
}
use monitoring_tool.Bucket.{Bucket, pop_all, clear_bucket, clear_buckets, slots_consumed}
use monitoring_tool.Bucket.Shape.{IsBucket}

-- The nodes of the buckets from `k` on, `n` of them.
unfoldable pub nodes_from : {E : Type 0} → (k n : ℕ) → (ℕ → Bucket E) → List E
nodes_from k zero buckets = []
nodes_from k (suc n) buckets = (buckets k).chain ++ nodes_from (k + 1) n buckets

module _ {E : Type 0} where
  pop_all-counts : (chain : List E) (c : ℕ) → pop_all chain c ≡ (c - length chain, chain)
  unfolding pop_all
  pop_all-counts [] c = ap (λ (m : ℕ). (m, [])) (omega arith)
  pop_all-counts (e ∷ chain) c =
      rw (pop_all-counts chain (c - 1)) (ap (λ (m : ℕ). (m, e ∷ chain)) (omega arith))

  -- A bucket is left without nodes and without a count, and every node is deleted once.
  clear_bucket-empty :
      (b : Bucket E)
      → IsBucket b
      → clear_bucket b ≡ (record { chain = []; last = none; elm_cnt = 0 }, b.chain)
  unfolding clear_bucket
  clear_bucket-empty b h =
      rw (pop_all-counts b.chain b.elm_cnt, h.elm_cnt)
        (ap (λ (m : ℕ). (record { chain = []; last = none; elm_cnt = m }, b.chain)) (omega arith))

  nodes_from_congr :
      (k n : ℕ) (t u : ℕ → Bucket E)
      → ((j : ℕ) → k ≤ j → (t j).chain ≡ (u j).chain)
      → nodes_from k n t ≡ nodes_from k n u
  unfolding nodes_from
  nodes_from_congr k zero t u h = refl
  nodes_from_congr k (suc n) t u h =
      rw (h k (omega arith), nodes_from_congr (k + 1) n t u (λ j above. h j (omega arith)))

  emptied :
      (t : ℕ → Bucket E) (k i : ℕ)
      → IsBucket (t i)
      → IsBucket (if i == k then record { chain = []; last = none; elm_cnt = 0 } else t i)
  emptied t k i h = elim (Bool-cases (i == k)) [
    | inl here ↦ rw here (record { elm_cnt = refl; last = refl })
    | inr other ↦ rw other h
  ]

  -- One bucket, and those behind it.
  abbrev behind : (k n : ℕ) (t : ℕ → Bucket E) → Bucket E × List E → (ℕ → Bucket E) × List E
  behind k n t one =
      let rest = clear_buckets (k + 1) n (λ (i : ℕ). if i == k then one.0 else t i) in
      (rest.0, one.1 ++ rest.1)

  clear_buckets-suc :
      (k n : ℕ) (t : ℕ → Bucket E)
      → IsBucket (t k)
      → clear_buckets k (suc n) t
        ≡ behind k n t (record { chain = []; last = none; elm_cnt = 0 }, (t k).chain)
  unfolding clear_buckets
  clear_buckets-suc k n t h = ap (behind k n t) (clear_bucket-empty (t k) h)

  -- The buckets from `k` on, `n` of them, are empty afterwards, the others as they were.
  pub clear_buckets-empties :
      (k n : ℕ) (t : ℕ → Bucket E)
      → ((i : ℕ) → IsBucket (t i))
      → ((j : ℕ)
          → (clear_buckets k n t).0 j ≡ (
              if leb k j && ltb j (k + n)
              then record { chain = []; last = none; elm_cnt = 0 }
              else t j))
        × ((clear_buckets k n t).1 ≡ nodes_from k n t)
  unfolding nodes_from
  clear_buckets-empties k zero t h =
      (unfold clear_buckets in λ j. ground arith, unfold clear_buckets in refl)
  clear_buckets-empties k (suc n) t h =
      let u : ℕ → Bucket E =
        λ i. if i == k then record { chain = []; last = none; elm_cnt = 0 } else t i in
      let (all, gone) = clear_buckets-empties (k + 1) n u (λ i. emptied t k i (h i)) in
      rw (clear_buckets-suc k n t (h k)) (
        λ j. elim (Bool-cases (j == k)) [
          | inl here ↦ ground (arith, all j)
          | inr other ↦ ground (arith, all j)
        ],
        ap (λ (l : List E). (t k).chain ++ l)
            (gone ∙ nodes_from_congr (k + 1) n u t (λ j above. ground arith)),
      )

  pub slots_consumed-zero :
      (k n : ℕ) (t : ℕ → Bucket E)
      → ((j : ℕ) → k ≤ j → j < k + n → (t j).chain ≡ [])
      → slots_consumed k n t ≡ 0
  unfolding slots_consumed
  slots_consumed-zero k zero t h = refl
  slots_consumed-zero k (suc n) t h =
      rw
        (
          h k (omega arith) (omega arith),
          slots_consumed-zero (k + 1) n t (λ j low high. h j (omega arith) (omega arith)),
        )
        refl
