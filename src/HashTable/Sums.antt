-- ===== src/HashTable/Sums.antt =====
-- How often all the values of a table have been added, `Hash::add` of c-http-sniffer/src/hashTable.cpp.
use monitoring_tool.Prelude.{
  ℕ, zero, suc, ◌+◌, ◌%◌, ◌^◌, ◌≤◌, ◌<◌, ◌≡◌, refl, sym, ap, ◌∙◌, Bool, false, some, List, [], ◌∷◌,
  ◌++◌, arith, ◌==◌, Bool-cases, Option-cases, inl, inr,
}
use monitoring_tool.Bucket.{Bucket}
use monitoring_tool.Bucket.Shape.{IsBucket, link_shape}
use monitoring_tool.HashTable.{
  Node, Hash, new_node, with_bucket, find_node, create, count_up, add_found, add,
}
use monitoring_tool.HashTable.Adds.{
  find-find_node, other_bucket, length-count_up, last_position-count_up,
}

-- The nodes of the buckets, and how often their values have occurred.
abbrev pub nodes_of : {V : Type 0} → (n i : ℕ) → (ℕ → Bucket (Node V)) → List (Node V)
nodes_of zero i buckets = []
nodes_of (suc n) i buckets = (buckets i).chain ++ nodes_of n (suc i) buckets

abbrev pub occurrences : {V : Type 0} → List (Node V) → ℕ
occurrences [] = 0
occurrences (n ∷ nodes) = n.cnt + occurrences nodes

occurrences-append :
    {V : Type 0} (ns ms : List (Node V)) → occurrences (ns ++ ms) ≡ occurrences ns + occurrences ms
occurrences-append [] ms = omega arith
occurrences-append (n ∷ ns) ms = omega (arith, occurrences-append ns ms)

module _ {V : Type 0} (t : Hash V) (k : ℕ) (b : Bucket (Node V)) where
  abbrev changed : ℕ → Bucket (Node V)
  changed = (with_bucket t k b).buckets

  -- The buckets from `i` on, behind the one that is changed.
  nodes_behind : (n i : ℕ) → k < i → nodes_of n i changed ≡ nodes_of n i t.buckets
  nodes_behind zero i h = refl
  nodes_behind (suc n) i h =
      let other : (i == k) ≡ false = ground (arith, h) in
      rw (other, nodes_behind n (suc i) (omega (arith, h))) refl

  -- A bucket that counts one more makes a table that counts one more.
  occurrences-changed :
      (n i : ℕ)
      → i ≤ k
      → k < i + n
      → occurrences b.chain ≡ occurrences (t.buckets k).chain + 1
      → occurrences (nodes_of n i changed) ≡ occurrences (nodes_of n i t.buckets) + 1
  occurrences-changed zero i le lt e = absurd (omega (arith, le, lt))
  occurrences-changed (suc n) i le lt e =
      let rest = nodes_of n (suc i) t.buckets in
      let rest' = nodes_of n (suc i) changed in
      elim (Bool-cases (i == k)) [
        | inl here ↦
            let at : i ≡ k = ground (arith, here) in
            let bucket : occurrences (t.buckets i).chain ≡ occurrences (t.buckets k).chain =
              ap (λ (j : ℕ). occurrences (t.buckets j).chain) at in
            let same : occurrences rest' ≡ occurrences rest =
              ap occurrences (nodes_behind n (suc i) (omega (arith, at))) in
            rw here (
              omega (
                arith,
                e,
                bucket,
                same,
                occurrences-append b.chain rest',
                occurrences-append (t.buckets i).chain rest,
              ))
        | inr other ↦
            let further : suc i ≤ k = ground (arith, other, le) in
            let later = occurrences-changed n (suc i) further (omega (arith, lt)) e in
            rw other (
              omega (
                arith,
                later,
                occurrences-append (t.buckets i).chain rest',
                occurrences-append (t.buckets i).chain rest,
              ))
      ]

-- One bucket counts no more than all.
occurrences-bucket :
    {V : Type 0} (t : Hash V) (k n i : ℕ)
    → i ≤ k
    → k < i + n
    → occurrences (t.buckets k).chain ≤ occurrences (nodes_of n i t.buckets)
occurrences-bucket t k zero i le lt = absurd (omega (arith, le, lt))
occurrences-bucket t k (suc n) i le lt =
    let rest = nodes_of n (suc i) t.buckets in
    elim (Bool-cases (i == k)) [
      | inl here ↦
          let at : i ≡ k = ground (arith, here) in
          omega (
            arith,
            ap (λ (j : ℕ). occurrences (t.buckets j).chain) at,
            occurrences-append (t.buckets i).chain rest,
          )
      | inr other ↦ omega (
        arith,
        occurrences-bucket t k n (suc i) (ground (arith, other, le)) (omega (arith, lt)),
        occurrences-append (t.buckets i).chain rest,
      )
    ]

module _ {V : Type 0} (hash : V → ℕ) (same : V → V → Bool) where
  occurrences-count_up :
      (chain : List (Node V)) (v : V) (i : ℕ)
      → find_node hash same chain v ≡ some i
      → occurrences chain + 1 < 2 ^ 31
      → occurrences (count_up hash same chain i) ≡ occurrences chain + 1
  unfolding find_node count_up
  occurrences-count_up [] v i h fits = absurd (ground arith)
  occurrences-count_up (e ∷ es) v i h fits = elim (Bool-cases (same v e.value)) [
    | inl hit ↦ let first : i ≡ 0 = ground (arith, hit, h) in rw first (omega (arith, fits))
    | inr miss ↦ elim (Option-cases (find_node hash same es v)) [
      | inl absent ↦ absurd (ground (arith, miss, absent, h))
      | inr (j, found) ↦
          let further : i ≡ suc j = ground (arith, miss, found, h) in
          rw further (omega (arith, occurrences-count_up es v j found (omega (arith, fits))))
    ]
  ]

  -- All the values of a table.
  abbrev pub all_occurrences : Hash V → ℕ
  all_occurrences t = occurrences (nodes_of t.size 0 t.buckets)

  -- On a table with buckets, all of them well-formed, whose values have occurred fewer than 2 ^ 31 - 1
  -- times, `add` returns and leaves such a table, in which all the values together have occurred once
  -- more.
  pub add-occurrences :
      (t : Hash V) (v : V)
      → hash v % t.size < t.size
      → ((i : ℕ) → IsBucket (t.buckets i))
      → all_occurrences t + 1 < 2 ^ 31
      → (t' : Hash V) × (code : ℕ) × (add hash same t v ≡ some (t', code))
        × ((i : ℕ) → IsBucket (t'.buckets i))
        × (t'.size ≡ t.size)
        × (all_occurrences t' ≡ all_occurrences t + 1)
  unfolding add add_found create
  add-occurrences t v fits h few =
      let k = hash v % t.size in
      let b = t.buckets k in
      let e = find-find_node hash same t v (h k) in
      elim (Option-cases (find_node hash same b.chain v)) [
        | inl absent ↦
            let (b', linked, valid, shape) = link_shape b.chain b (new_node v) refl (h k) in
            (
              record (with_bucket t k b') { cnt = t.cnt + 1 },
              0,
              rw (e, absent, linked) refl,
              other_bucket hash same t k b' h valid,
              refl,
              occurrences-changed t k b' t.size 0 (omega arith) (omega (arith, fits)) (
                  ap occurrences shape
                  ∙ omega (arith, occurrences-append b.chain (new_node v ∷ []))),
            )
        | inr (i, found) ↦
            let b' : Bucket (Node V) = record b { chain = count_up hash same b.chain i } in
            (
              with_bucket t k b',
              1,
              rw (e, found) refl,
              other_bucket hash same t k b' h (record {
                elm_cnt = (h k).elm_cnt ∙ sym (length-count_up hash same b.chain i);
                last = (h k).last ∙ sym (last_position-count_up hash same b.chain i);
              }),
              refl,
              occurrences-changed t k b' t.size 0 (omega arith) (omega (arith, fits)) (
                  occurrences-count_up b.chain v i found (
                    omega (
                      arith,
                      few,
                      occurrences-bucket t k t.size 0 (omega arith) (omega (arith, fits)),
                    ))),
            )
      ]
