-- ===== src/HashTable/Tests.antt =====
-- A table of numbers in thirteen thousand buckets, by the numbers themselves.
use monitoring_tool.Prelude.{none, ℕ, ◌≡◌, ◌↔◌, refl, Bool, true, some, [], ◌∷◌, arith, ◌==◌}
use monitoring_tool.HashTable.{find, clear, get_scnt, Hash, new_hash, new_node, with_bucket, remove}
use monitoring_tool.Bucket.Shape.{IsBucket}
use monitoring_tool.Bucket.Clears.{nodes_from}
use monitoring_tool.HashTable.Clears.{clear-finds_nothing}
use monitoring_tool.HashTable.Adds.{Tallied, other_bucket, add-Tallied}
use monitoring_tool.HashTable.Removes.{Removal, remove-Removal}

abbrev itself : ℕ → ℕ
itself n = n

abbrev equal : ℕ → ℕ → Bool
equal n m = n == m

equal-decides : (n m : ℕ) → (equal n m ≡ true) ↔ (n ≡ m)
equal-decides n m = ((λ h. ground arith), (λ h. ground arith))

new_hash-IsBucket : (i : ℕ) → IsBucket ((new_hash {V = ℕ}).buckets i)
new_hash-IsBucket i = record { elm_cnt = refl; last = refl }

-- A table that holds the number 5.
abbrev five : Hash ℕ
five = with_bucket new_hash 5 (record { chain = new_node 5 ∷ []; last = some 0; elm_cnt = 1 })

five-IsBucket : (i : ℕ) → IsBucket (five.buckets i)
five-IsBucket =
    other_bucket itself equal new_hash 5
      (record { chain = new_node 5 ∷ []; last = some 0; elm_cnt = 1 }) new_hash-IsBucket
      (record { elm_cnt = refl; last = refl })

-- The number that is there.
add-Tallied_example : Tallied itself equal equal-decides five 5
add-Tallied_example =
    add-Tallied itself equal equal-decides five 5 five-IsBucket (λ n e. ground (arith, e))

remove-Removal_example :
    (after : Hash ℕ) × (taken : Bool) × (remove itself equal five 5 ≡ some (after, taken))
    × ((i : ℕ) → IsBucket (after.buckets i))
    × Removal itself equal five 5 after taken
remove-Removal_example = remove-Removal itself equal five 5 five-IsBucket

clear-finds_nothing_example :
    ((v : ℕ) → find itself equal (clear five).0 v ≡ none)
    × ((clear five).1 ≡ nodes_from 0 13200 five.buckets)
    × ((clear five).0.cnt ≡ 0)
    × (get_scnt (clear five).0 ≡ 0)
clear-finds_nothing_example = clear-finds_nothing itself equal five five-IsBucket (omega arith)
