-- ===== src/Bucket/Shape.antt =====
-- The shape of a bucket, and what linking and unlinking a node do to it.
use mathlib.Core.List.{append-nil}
use monitoring_tool.Prelude.{
  ℕ, zero, suc, ◌+◌, ◌-◌, ◌<◌, ◌≡◌, refl, sym, ap, ◌∙◌, Option, none, some, List, [], ◌∷◌, ◌++◌,
  arith, ◌==◌, length, length-append, take, drop, length-take, length-drop, Bool-cases, inl, inr,
}
use monitoring_tool.Queue.Fifo.{last_position, take-all}
use monitoring_tool.Bucket.{Bucket, link_node, unlink}

-- `elm_cnt` is the chain's length and `last` points to its last node.
pub record IsBucket {E : Type 0} (b : Bucket E) : Type 0 where
  pub elm_cnt : b.elm_cnt ≡ length b.chain
  pub last : b.last ≡ last_position b.chain

module _ {E : Type 0} where
  pub link_shape :
      (chain : List E) (b : Bucket E) (n : E)
      → b.chain ≡ chain
      → IsBucket b
      → (b' : Bucket E) × (link_node b n ≡ some b') × IsBucket b' × (b'.chain ≡ chain ++ n ∷ [])
  unfolding link_node
  link_shape [] b n e h =
      let empty : b.elm_cnt ≡ 0 = h.elm_cnt ∙ ap length e in
      (
        record { chain = n ∷ []; last = some 0; elm_cnt = 1 },
        rw empty,
        record { elm_cnt = refl; last = refl },
        refl,
      )
  link_shape (x ∷ xs) b n e h =
      let full : b.elm_cnt ≡ suc (length xs) = h.elm_cnt ∙ ap length e in
      let at_last : b.last ≡ some (length xs) = h.last ∙ ap last_position e in
      (
        record { chain = (x ∷ xs) ++ n ∷ []; last = some (length xs + 1); elm_cnt = b.elm_cnt + 1 },
        ground (arith, full, at_last, e, take-all (x ∷ xs)),
        record {
          elm_cnt = omega (arith, full, length-append xs (n ∷ []));
          last = ap {B = Option ℕ} some (omega (arith, length-append xs (n ∷ [])));
        },
        refl,
      )

  last_at : (xs : List E) (k : ℕ) → length xs ≡ k + 1 → last_position xs ≡ some k
  last_at [] k h = absurd (omega arith)
  last_at (x ∷ xs) k h = ap {B = Option ℕ} some (omega arith)

  none_left : (xs : List E) → length xs ≡ 0 → xs ≡ []
  none_left [] h = refl
  none_left (x ∷ xs) h = absurd (omega arith)

  last-some : (xs : List E) → 0 < length xs → last_position xs ≡ some (length xs - 1)
  last-some [] h = absurd (omega arith)
  last-some (x ∷ xs) h = ap {B = Option ℕ} some (omega arith)

  -- Taking out a node that is neither the first nor the last.
  pub unlink_head :
      (chain : List E) (b : Bucket E)
      → b.chain ≡ chain
      → 0 < length chain
      → IsBucket b
      → (b' : Bucket E) × (unlink b 0 ≡ some b') × IsBucket b' × (b'.chain ≡ drop 1 chain)
  unfolding unlink
  unlink_head [] b e h v = absurd (omega arith)
  unlink_head (x ∷ []) b e h v =
      let one : b.elm_cnt ≡ 1 = v.elm_cnt ∙ ap length e in
      (
        record { chain = []; last = none; elm_cnt = 0 },
        ground (arith, one),
        record { elm_cnt = refl; last = refl },
        refl,
      )
  unlink_head (x ∷ y ∷ ys) b e h v =
      let more : b.elm_cnt ≡ suc (suc (length ys)) = v.elm_cnt ∙ ap length e in
      let at_last : b.last ≡ some (suc (length ys)) = v.last ∙ ap last_position e in
      (
        record { chain = y ∷ ys; last = some (length ys); elm_cnt = b.elm_cnt - 1 },
        ground (arith, more, at_last, e),
        record { elm_cnt = omega (arith, more); last = refl },
        refl,
      )

  pub unlink_behind :
      (b : Bucket E) (j : ℕ)
      → suc j < length b.chain
      → IsBucket b
      → (b' : Bucket E) × (unlink b (suc j) ≡ some b')
        × IsBucket b'
        × (b'.chain ≡ take (suc j) b.chain ++ drop (suc j + 1) b.chain)
  unfolding unlink
  unlink_behind b j h v = elim (Bool-cases (suc j + 1 == length b.chain)) [
    | inl final ↦ (
      record { chain = take (suc j) b.chain; last = some j; elm_cnt = b.elm_cnt - 1 },
      ground (arith, final),
      record {
        elm_cnt = ground (arith, v.elm_cnt, length-take (suc j) b.chain);
        last = sym (last_at (take (suc j) b.chain) j (omega (arith, length-take (suc j) b.chain)));
      },
      sym (
          ap (λ (l : List E). take (suc j) b.chain ++ l)
            (none_left (drop (suc j + 1) b.chain) (ground (arith, length-drop (suc j + 1) b.chain)))
          ∙ append-nil (take (suc j) b.chain)),
    )
    | inr inside ↦
        let kept : length (take (suc j) b.chain ++ drop (suc j + 1) b.chain) ≡ length b.chain - 1 =
          ground (
            arith,
            length-append (take (suc j) b.chain) (drop (suc j + 1) b.chain),
            length-take (suc j) b.chain,
            length-drop (suc j + 1) b.chain,
          ) in
        (
          record {
            chain = take (suc j) b.chain ++ drop (suc j + 1) b.chain;
            last = some (length b.chain - 2);
            elm_cnt = b.elm_cnt - 1;
          },
          ground (arith, inside, v.last, last-some b.chain (omega arith)),
          record {
            elm_cnt = rw kept (omega (arith, v.elm_cnt));
            last = sym (
                last_at (take (suc j) b.chain ++ drop (suc j + 1) b.chain) (length b.chain - 2)
                  (rw kept (ground arith)));
          },
          refl,
        )
  ]

-- Taking out the node at any position of a bucket.
pub unlink_shape :
    {E : Type 0} (b : Bucket E) (i : ℕ)
    → i < length b.chain
    → IsBucket b
    → (b' : Bucket E) × (unlink b i ≡ some b')
      × IsBucket b'
      × (b'.chain ≡ take i b.chain ++ drop (i + 1) b.chain)
unlink_shape b zero h v = unlink_head b.chain b refl h v
unlink_shape b (suc j) h v = unlink_behind b j h v
