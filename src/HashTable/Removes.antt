-- ===== src/HashTable/Removes.antt =====
-- `Hash::remove`, src/hashTable.cpp.
use monitoring_tool.Prelude.{
  ℕ, ◌+◌, ◌-◌, ◌%◌, ◌<◌, ◌≡◌, refl, Bool, true, false, none, some, List, [], ◌∷◌, ◌++◌, arith, suc,
  ap, ◌∙◌, length, take, drop, Option-cases, Bool-cases, All, inl, inr,
}
use monitoring_tool.HashTable.{Node, Bucket, Hash, with_bucket, find_node, remove_found, remove}
use monitoring_tool.Bucket.{Bucket}
use monitoring_tool.Bucket.Shape.{IsBucket, unlink_shape}
use monitoring_tool.HashTable.Adds.{find-find_node, other_bucket}

module _ {V : Type 0} (hash : V → ℕ) (same : V → V → Bool) where
  find_node-lt :
      (chain : List (Node V)) (v : V) (i : ℕ)
      → find_node hash same chain v ≡ some i
      → i < length chain
  unfolding find_node
  find_node-lt [] v i h = absurd (ground arith)
  find_node-lt (e ∷ es) v i h = elim (Option-cases (find_node hash same es v)) [
    | inl absent ↦ ground arith
    | inr (j, found) ↦ ground (arith, find_node-lt es v j found)
  ]

  -- Nodes that `compare` tells apart from a value.
  abbrev pub Differ : V → List (Node V) → Type 0
  Differ v nodes = All (λ (n : Node V). same v n.value ≡ false) nodes

  find_node-absent :
      (chain : List (Node V)) (v : V) → find_node hash same chain v ≡ none → Differ v chain
  unfolding find_node
  find_node-absent [] v h = tt
  find_node-absent (e ∷ es) v h = elim (Bool-cases (same v e.value)) [
    | inl hit ↦ absurd (ground (arith, hit))
    | inr miss ↦ elim (Option-cases (find_node hash same es v)) [
      | inl absent ↦ (miss, find_node-absent es v absent)
      | inr (j, found) ↦ absurd (ground (arith, miss, found))
    ]
  ]

  -- The node that is found is the first that is the same.
  find_node-first :
      (chain : List (Node V)) (v : V) (i : ℕ)
      → find_node hash same chain v ≡ some i
      → (n : Node V) × (chain ≡ take i chain ++ n ∷ drop (suc i) chain)
        × Differ v (take i chain)
        × (same v n.value ≡ true)
  unfolding find_node
  find_node-first [] v i h = absurd (ground arith)
  find_node-first (e ∷ es) v i h = elim (Bool-cases (same v e.value)) [
    | inl hit ↦ let here : i ≡ 0 = ground (arith, hit, h) in rw here (e, refl, tt, hit)
    | inr miss ↦ elim (Option-cases (find_node hash same es v)) [
      | inl absent ↦ absurd (ground (arith, miss, absent))
      | inr (j, found) ↦
          let further : i ≡ suc j = ground (arith, miss, found, h) in
          let (n, split, before, hit) = find_node-first es v j found in
          rw further (n, ap (λ (l : List (Node V)). e ∷ l) split, (miss, before), hit)
    ]
  ]

  -- What `remove` makes of a table: nothing, or one without a node of the value's bucket.
  pub data Removal (t : Hash V) (v : V) (after : Hash V) (taken : Bool) : Type 0 where
    absent :
        taken ≡ false
        → after ≡ t
        → Differ v (t.buckets (hash v % t.size)).chain
        → Removal t v after taken
    present :
        (front back : List (Node V)) (n : Node V) (b : Bucket (Node V))
        → taken ≡ true
        → (t.buckets (hash v % t.size)).chain ≡ front ++ n ∷ back
        → Differ v front
        → same v n.value ≡ true
        → b.chain ≡ front ++ back
        → after ≡ record (with_bucket t (hash v % t.size) b) { cnt = t.cnt - 1 }
        → Removal t v after taken

  -- On a table whose buckets are well-formed `remove` follows no bad pointer and leaves such a table.
  -- If no node of the value's bucket is the same, nothing changes; otherwise exactly the first node that
  -- is leaves the bucket, the other nodes keep their order and the other buckets theirs, and one element
  -- less is counted.
  pub remove-Removal :
      (t : Hash V) (v : V)
      → ((i : ℕ) → IsBucket (t.buckets i))
      → (after : Hash V) × (taken : Bool) × (remove hash same t v ≡ some (after, taken))
        × ((i : ℕ) → IsBucket (after.buckets i))
        × Removal t v after taken
  unfolding remove remove_found
  remove-Removal t v h =
      let k = hash v % t.size in
      let b = t.buckets k in
      let e = find-find_node hash same t v (h k) in
      elim (Option-cases (find_node hash same b.chain v)) [
        | inl gone ↦ (
          t,
          false,
          rw (e, gone) refl,
          h,
          Removal.absent refl refl (find_node-absent b.chain v gone),
        )
        | inr (i, found) ↦
            let (b', taken, valid, shape) =
              unlink_shape b i (find_node-lt b.chain v i found) (h k) in
            let next : i + 1 ≡ suc i = omega arith in
            let (n, split, before, hit) = find_node-first b.chain v i found in
            (
              record (with_bucket t k b') { cnt = t.cnt - 1 },
              true,
              rw (e, found, taken) refl,
              other_bucket hash same t k b' h valid,
              Removal.present (take i b.chain) (drop (suc i) b.chain) n b' refl split before hit
                  (shape ∙ ap (λ (k : ℕ). take i b.chain ++ drop k b.chain) next) refl,
            )
      ]
