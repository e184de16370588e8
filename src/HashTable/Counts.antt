-- ===== src/HashTable/Counts.antt =====
-- The table as a count for each value.
use monitoring_tool.Prelude.{
  ℕ, suc, ◌+◌, ◌%◌, ◌^◌, ◌<◌, ◌≡◌, ◌↔◌, refl, sym, ap, Bool, true, Option, none, some, List, [],
  ◌∷◌, ◌++◌, arith, if◌then◌else◌, Bool-cases, Option-cases, inl, inr,
}
use monitoring_tool.HashTable.{Node, new_node, find_node, count_up}

-- The count after one more occurrence.
abbrev pub bumped : Option ℕ → Option ℕ
bumped none = some 1
bumped (some n) = some (n + 1)

module _ {V : Type 0} (hash : V → ℕ) (same : V → V → Bool)
    (decides : (v w : V) → (same v w ≡ true) ↔ (v ≡ w)) where
  -- The count of the first node for a value.
  abbrev pub lookup : List (Node V) → V → Option ℕ
  lookup [] w = none
  lookup (e ∷ es) w = if same w e.value then some e.cnt else lookup es w

  -- Equal values are the same to every value, and nothing else tells them apart.
  same_hit : (u v w : V) → same v u ≡ true → same w u ≡ same w v
  same_hit u v w h = ap (same w) (sym ((decides v u).0 h))

  same_mine : (u v w : V) → same w v ≡ true → same w u ≡ same v u
  same_mine u v w h = ap (λ (t : V). same t u) ((decides w v).0 h)

  pub lookup-link :
      (chain : List (Node V)) (v w : V)
      → find_node hash same chain v ≡ none
      → lookup (chain ++ new_node v ∷ []) w
        ≡ (if same w v then bumped (lookup chain w) else lookup chain w)
  unfolding find_node
  lookup-link [] v w h = ground arith
  lookup-link (e ∷ es) v w h = elim (Bool-cases (same v e.value)) [
    | inl hit ↦ absurd (ground arith)
    | inr miss ↦ elim (Option-cases (find_node hash same es v)) [
      | inl absent ↦ elim (Bool-cases (same w v)) [
        | inl mine ↦ ground (arith, same_mine e.value v w mine, lookup-link es v w absent)
        | inr other ↦ ground (arith, lookup-link es v w absent)
      ]
      | inr (i, found) ↦ absurd (ground arith)
    ]
  ]

  pub lookup-count_up :
      (chain : List (Node V)) (v w : V) (i : ℕ)
      → find_node hash same chain v ≡ some i
      → ((n : ℕ) → lookup chain v ≡ some n → n + 1 < 2 ^ 31)
      → lookup (count_up hash same chain i) w
        ≡ (if same w v then bumped (lookup chain w) else lookup chain w)
  unfolding find_node count_up
  lookup-count_up [] v w i h fits = ground arith
  lookup-count_up (e ∷ es) v w i h fits = elim (Bool-cases (same v e.value)) [
    | inl hit ↦
        let here : i ≡ 0 = ground (arith, hit, h) in
        let small : e.cnt + 1 < 2 ^ 31 = fits e.cnt (rw hit refl) in
        let next : (e.cnt + 1) % 2 ^ 32 ≡ e.cnt + 1 = omega (arith, small) in
        rw (here, next) (ground (arith, same_hit e.value v w hit))
    | inr miss ↦ elim (Option-cases (find_node hash same es v)) [
      | inl absent ↦ absurd (ground arith)
      | inr (j, found) ↦
          let further : i ≡ suc j = ground arith in
          let later = lookup-count_up es v w j found (λ n e'. fits n (rw miss e')) in
          elim (Bool-cases (same w v)) [
            | inl mine ↦ rw further (ground (arith, same_mine e.value v w mine, later))
            | inr other ↦ rw further (ground (arith, later))
          ]
    ]
  ]
