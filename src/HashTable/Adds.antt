-- ===== src/HashTable/Adds.antt =====
-- `Hash::add` and `Hash::remove`, src/hashTable.cpp, on a whole table.
use monitoring_tool.Prelude.{
  ℕ, zero, suc, ◌+◌, ◌%◌, ◌^◌, ◌<◌, ◌≡◌, ◌↔◌, refl, sym, ap, ◌∙◌, Bool, true, Option, none, some,
  List, [], ◌∷◌, arith, ltb, ◌==◌, if◌then◌else◌, length, Bool-cases, Option-cases, inl, inr,
}
use monitoring_tool.Queue.Fifo.{last_position}
use monitoring_tool.HashTable.{
  Node, Bucket, Hash, new_node, with_bucket, find_node, find, create, count_up, add_found, add,
}
use monitoring_tool.Bucket.{Bucket}
use monitoring_tool.Bucket.Shape.{IsBucket, link_shape}
use monitoring_tool.HashTable.Counts.{bumped, lookup, lookup-link, lookup-count_up}

abbrev pub presence : {A : Type 0} → Option A → ℕ
presence none = 0
presence (some x) = 1

module _ {V : Type 0} (hash : V → ℕ) (same : V → V → Bool) where
  pub find-find_node :
      (t : Hash V) (v : V)
      → IsBucket (t.buckets (hash v % t.size))
      → find hash same t v ≡ find_node hash same (t.buckets (hash v % t.size)).chain v
  unfolding find find_node
  find-find_node t v h =
      go (t.buckets (hash v % t.size)).chain (t.buckets (hash v % t.size)).elm_cnt h.elm_cnt
    where
      go :
          (chain : List (Node V)) (n : ℕ)
          → n ≡ length chain
          → (if ltb 0 n then find_node hash same chain v else none) ≡ find_node hash same chain v
      go [] n e = ground arith
      go (x ∷ xs) n e = ground arith

  pub length-count_up :
      (chain : List (Node V)) (i : ℕ) → length (count_up hash same chain i) ≡ length chain
  unfolding count_up
  length-count_up [] i = refl
  length-count_up (e ∷ es) zero = refl
  length-count_up (e ∷ es) (suc i) = ap suc (length-count_up es i)

  pub last_position-count_up :
      (chain : List (Node V)) (i : ℕ)
      → last_position (count_up hash same chain i) ≡ last_position chain
  unfolding count_up
  last_position-count_up [] i = refl
  last_position-count_up (e ∷ es) zero = refl
  last_position-count_up (e ∷ es) (suc i) = ap some (length-count_up es i)

  pub other_bucket :
      (t : Hash V) (k : ℕ) (b : Bucket (Node V))
      → ((i : ℕ) → IsBucket (t.buckets i))
      → IsBucket b
      → (i : ℕ) → IsBucket ((with_bucket t k b).buckets i)
  other_bucket t k b h new i = elim (Bool-cases (i == k)) [
    | inl here ↦ rw here new
    | inr elsewhere ↦ rw elsewhere (h i)
  ]

module _ {V : Type 0} (hash : V → ℕ) (same : V → V → Bool)
    (decides : (v w : V) → (same v w ≡ true) ↔ (v ≡ w)) where
  -- The count that a table has for a value.
  abbrev pub tally : Hash V → V → Option ℕ
  tally t w = lookup hash same decides (t.buckets (hash w % t.size)).chain w

  presence-lookup :
      (chain : List (Node V)) (v : V)
      → presence (lookup hash same decides chain v) ≡ presence (find_node hash same chain v)
  unfolding find_node
  presence-lookup [] v = refl
  presence-lookup (e ∷ es) v = elim (Bool-cases (same v e.value)) [
    | inl hit ↦ rw hit refl
    | inr miss ↦ elim (Option-cases (find_node hash same es v)) [
      | inl absent ↦ rw (miss, absent) (presence-lookup es v ∙ ap presence absent)
      | inr (i, found) ↦ rw (miss, found) (presence-lookup es v ∙ ap presence found)
    ]
  ]

  -- A bucket with one more occurrence of `v` makes a table with one more.
  tally-with_bucket :
      (t : Hash V) (v : V) (b : Bucket (Node V))
      → ((w : V)
          → lookup hash same decides b.chain w ≡ (
              if same w v
              then bumped (lookup hash same decides (t.buckets (hash v % t.size)).chain w)
              else lookup hash same decides (t.buckets (hash v % t.size)).chain w))
      → (w : V)
      → tally (with_bucket t (hash v % t.size) b) w
        ≡ (if same w v then bumped (tally t w) else tally t w)
  tally-with_bucket t v b h w = elim (Bool-cases (hash w % t.size == hash v % t.size)) [
    | inl here ↦ let k : hash w % t.size ≡ hash v % t.size = ground arith in rw (here, k) (h w)
    | inr elsewhere ↦ elim (Bool-cases (same w v)) [
      | inl mine ↦ absurd (ground (arith, ap (λ (u : V). hash u % t.size) ((decides w v).0 mine)))
      | inr other ↦ rw (elsewhere, other) refl
    ]
  ]

  -- The table after a call of `add`.
  pub record Tallied (t : Hash V) (v : V) : Type 0 where
    pub after : Hash V
    pub code : ℕ
    pub returns : add hash same t v ≡ some (after, code)
    pub buckets : (i : ℕ) → IsBucket (after.buckets i)
    pub tallies : (w : V) → tally after w ≡ (if same w v then bumped (tally t w) else tally t w)
    pub answer : code ≡ presence (tally t v)
    pub total : after.cnt + code ≡ t.cnt + 1

  -- On a table whose buckets are well-formed and count the value below 2 ^ 31 - 1 times, if at all, and
  -- with a `compare` that answers 0 exactly on equal values, `add` returns and leaves such a table. It answers 0 if the value was absent, which then counts 1,
  -- and 1 if it was there, which then counts one more; every other value counts what it did. The number
  -- of elements goes up by one in the first case and is kept in the second.
  pub add-Tallied :
      (t : Hash V) (v : V)
      → ((i : ℕ) → IsBucket (t.buckets i))
      → ((n : ℕ) → tally t v ≡ some n → n + 1 < 2 ^ 31)
      → Tallied t v
  unfolding add add_found create
  add-Tallied t v h fits =
      let k = hash v % t.size in
      let b = t.buckets k in
      let e = find-find_node hash same t v (h k) in
      elim (Option-cases (find_node hash same b.chain v)) [
        | inl absent ↦
            let (b', linked, valid, shape) = link_shape b.chain b (new_node v) refl (h k) in
            record {
              after = record (with_bucket t k b') { cnt = t.cnt + 1 };
              code = 0;
              returns = rw (e, absent, linked) refl;
              buckets = other_bucket hash same t k b' h valid;
              tallies =
                  tally-with_bucket t v b'
                    (λ w. rw shape (lookup-link hash same decides b.chain v w absent));
              answer = sym (presence-lookup b.chain v ∙ ap presence absent);
              total = omega arith;
            }
        | inr (i, found) ↦
            let b' : Bucket (Node V) = record b { chain = count_up hash same b.chain i } in
            record {
              after = with_bucket t k b';
              code = 1;
              returns = rw (e, found) refl;
              buckets = other_bucket hash same t k b' h (record {
                elm_cnt = (h k).elm_cnt ∙ sym (length-count_up hash same b.chain i);
                last = (h k).last ∙ sym (last_position-count_up hash same b.chain i);
              });
              tallies =
                  tally-with_bucket t v b'
                    (λ w. lookup-count_up hash same decides b.chain v w i found fits);
              answer = sym (presence-lookup b.chain v ∙ ap presence found);
              total = omega arith;
            }
      ]
