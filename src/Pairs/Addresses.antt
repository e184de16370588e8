-- ===== src/Pairs/Addresses.antt =====
-- The addresses of a chain of pairs, `Flow::add_pair` of src/flow.cpp and `Protocol::extractData` of
-- src/protocols/protocol.cpp.
use mathlib.Core.List.{append_assoc, append-nil}
use mathlib.Core.Path.{transport}
use monitoring_tool.Prelude.{
  ℕ, suc, ◌+◌, ◌≡◌, ◌≢◌, ◌⊎◌, refl, sym, ap, ◌∙◌, Bool, true, false, Option, none, some, List, [],
  ◌∷◌, ◌++◌, arith, ◌≤◌, ◌==◌, length, length-append, All, All-append, Bool-cases, inl, inr,
}
use monitoring_tool.Pairs.{
  Pair, PairFlow, mark_pair, is_done, chain_behind, deleted_pair, extract_pairs, link_pair,
}

abbrev pub addresses : List Pair → List ℕ
addresses [] = []
addresses (p ∷ pairs) = p.address ∷ addresses pairs

abbrev pub last_of : List ℕ → Option ℕ
last_of [] = none
last_of (a ∷ []) = some a
last_of (a ∷ b ∷ l) = last_of (b ∷ l)

-- No two are the same.
abbrev pub IsDistinct : List ℕ → Type 0
IsDistinct [] = Unit
IsDistinct (a ∷ l) = All (λ (b : ℕ). a ≢ b) l × IsDistinct l

-- `pair_e` is the last pair of a chain that is not empty.
pub record IsPairFlow (f : PairFlow) : Type 0 where
  pub last : 1 ≤ length f.pair_f → f.pair_e ≡ last_of (addresses f.pair_f)
  pub distinct : IsDistinct (addresses f.pair_f)

pub addresses-append : (ps qs : List Pair) → addresses (ps ++ qs) ≡ addresses ps ++ addresses qs
addresses-append [] qs = refl
addresses-append (p ∷ ps) qs = ap (λ (l : List ℕ). p.address ∷ l) (addresses-append ps qs)

pub length-addresses : (ps : List Pair) → length (addresses ps) ≡ length ps
length-addresses [] = refl
length-addresses (p ∷ ps) = ap suc (length-addresses ps)

mark_pair-address : (request : Option Bool) (p : Pair) → (mark_pair request p).address ≡ p.address
mark_pair-address none p = refl
mark_pair-address (some r) p = refl

pub last_of-append :
    (xs : List ℕ) (y : ℕ) (ys : List ℕ) → last_of (xs ++ (y ∷ ys)) ≡ last_of (y ∷ ys)
last_of-append [] y ys = refl
last_of-append (x ∷ []) y ys = refl
last_of-append (x ∷ x' ∷ xs) y ys = last_of-append (x' ∷ xs) y ys

pub last_of-suffix :
    (gone : List ℕ) (ps : List Pair)
    → 1 ≤ length ps
    → last_of (gone ++ addresses ps) ≡ last_of (addresses ps)
last_of-suffix gone [] h = absurd (omega arith)
last_of-suffix gone (p ∷ ps) h = last_of-append gone p.address (addresses ps)

pub last_of-some : (x : ℕ) (xs : List ℕ) → (a : ℕ) × (last_of (x ∷ xs) ≡ some a)
last_of-some x [] = (x, refl)
last_of-some x (y ∷ xs) = last_of-some y xs

pub IsDistinct-behind : (xs ys : List ℕ) → IsDistinct (xs ++ ys) → IsDistinct ys
IsDistinct-behind [] ys h = h
IsDistinct-behind (x ∷ xs) ys h = IsDistinct-behind xs ys h.1

last_of-All :
    (P : ℕ → Type 0) (x : ℕ) (xs : List ℕ) (e : ℕ)
    → last_of (x ∷ xs) ≡ some e
    → All P (x ∷ xs)
    → P e
last_of-All P x [] e h a = ground (arith, h, a)
last_of-All P x (y ∷ xs) e h a = last_of-All P y xs e h a.1

pub link_pair-last :
    (e : ℕ) (h : Pair) (p : Pair) (pairs : List Pair)
    → last_of (addresses (p ∷ pairs)) ≡ some e
    → IsDistinct (addresses (p ∷ pairs))
    → link_pair e h (p ∷ pairs) ≡ some (p ∷ (pairs ++ h ∷ []))
unfolding link_pair
link_pair-last e h p [] last d = ground (arith, last)
link_pair-last e h p (q ∷ pairs) last d =
    let other : p.address == e ≡ false =
      let ne : p.address ≢ e =
        last_of-All (λ (b : ℕ). p.address ≢ b) q.address (addresses pairs) e last d.0 in
      ground (arith, ne) in
    rw (other, link_pair-last e h q pairs last d.1) refl

pub IsDistinct-snoc :
    (xs : List ℕ) (y : ℕ) → IsDistinct xs → All (λ (x : ℕ). x ≢ y) xs → IsDistinct (xs ++ y ∷ [])
IsDistinct-snoc [] y d h = (tt, tt)
IsDistinct-snoc (x ∷ xs) y d h =
    (All-append (λ (b : ℕ). x ≢ b) xs (y ∷ []) d.0 (h.0, tt), IsDistinct-snoc xs y d.1 h.1)

pub kept_addresses :
    (kept : List Pair) (p : Pair)
    → addresses (kept ++ mark_pair p.request_header p ∷ []) ≡ addresses kept ++ p.address ∷ []
kept_addresses kept p =
    addresses-append kept (mark_pair p.request_header p ∷ [])
    ∙ ap (λ (a : ℕ). addresses kept ++ a ∷ []) (mark_pair-address p.request_header p)

pub chain_behind-cases :
    (kept : List Pair) (p : Pair) (rest : List Pair)
    → ((chain_behind kept p rest ≡ []) × (1 ≤ length rest))
      ⊎ (chain_behind kept p rest ≡ kept ++ mark_pair p.request_header p ∷ [])
chain_behind-cases kept p [] = inr refl
chain_behind-cases kept p (q ∷ rest) =
    elim (Bool-cases (is_done p.request_header p.response_header)) [
      | inl done ↦ inl (rw done refl, omega arith)
      | inr other ↦ inr (rw other refl)
    ]

-- What holds of the addresses of a chain holds of those that a walk leaves and of those that it deletes.
module _ (P : ℕ → Type 0) where
  pub extract_pairs-All :
      (kept rest : List Pair)
      → All P (addresses kept)
      → All P (addresses rest)
      → All P (addresses (extract_pairs kept rest).pair_f)
  unfolding extract_pairs
  extract_pairs-All kept [] h r = h
  extract_pairs-All kept (p ∷ rest) h r = elim (chain_behind-cases kept p rest) [
    | inl (gone, _) ↦ rw gone (extract_pairs-All [] rest tt r.1)
    | inr stays ↦ rw stays (
        extract_pairs-All (kept ++ mark_pair p.request_header p ∷ []) rest
          (rw (kept_addresses kept p) (All-append P (addresses kept) (p.address ∷ []) h (r.0, tt)))
          r.1)
  ]

  deleted_pair-All :
      (p : Pair) (rest : List Pair)
      → (is_done p.request_header p.response_header ≡ true → P p.address)
      → All P (deleted_pair p rest)
  deleted_pair-All p [] h = tt
  deleted_pair-All p (q ∷ rest) h = elim (Bool-cases (is_done p.request_header p.response_header)) [
    | inl done ↦ rw done (h done, tt)
    | inr other ↦ rw other tt
  ]

  -- Only pairs that are done are deleted.
  pub extract_pairs-deleted :
      (kept rest : List Pair)
      → All (λ (p : Pair). is_done p.request_header p.response_header ≡ true → P p.address) rest
      → All P (extract_pairs kept rest).deleted
  unfolding extract_pairs
  extract_pairs-deleted kept [] r = tt
  extract_pairs-deleted kept (p ∷ rest) r =
      All-append P (deleted_pair p rest) (extract_pairs (chain_behind kept p rest) rest).deleted
        (deleted_pair-All p rest r.0) (extract_pairs-deleted (chain_behind kept p rest) rest r.1)

  -- Of a chain with a pair that is done, and not the last, nothing in front of it is left.
  pub extract_pairs-cut :
      (kept before : List Pair) (p q : Pair) (rest : List Pair)
      → is_done p.request_header p.response_header ≡ true
      → All P (addresses (q ∷ rest))
      → All P (addresses (extract_pairs kept (before ++ (p ∷ q ∷ rest))).pair_f)
  unfolding extract_pairs
  extract_pairs-cut kept [] p q rest done h =
      let gone : chain_behind kept p (q ∷ rest) ≡ [] = rw done refl in
      transport
        (ap (λ (l : List Pair). All P (addresses (extract_pairs l (q ∷ rest)).pair_f)) (sym gone))
        (extract_pairs-All [] (q ∷ rest) tt h)
  extract_pairs-cut kept (b ∷ before) p q rest done h =
      extract_pairs-cut (chain_behind kept b (before ++ (p ∷ q ∷ rest))) before p q rest done h

  pub All-pairs :
      (pairs : List Pair)
      → All P (addresses pairs)
      → All (λ (p : Pair). is_done p.request_header p.response_header ≡ true → P p.address) pairs
  All-pairs [] h = tt
  All-pairs (p ∷ pairs) h = (λ done. h.0, All-pairs pairs h.1)

  All-middle : (xs ys : List ℕ) (a : ℕ) → All P (xs ++ (a ∷ ys)) → P a
  All-middle [] ys a h = h.0
  All-middle (x ∷ xs) ys a h = All-middle xs ys a h.1

  pub All-behind : (xs ys : List ℕ) → All P (xs ++ ys) → All P ys
  All-behind [] ys h = h
  All-behind (x ∷ xs) ys h = All-behind xs ys h.1

-- An address is neither in front of its place nor behind it.
pub distinct_around :
    (xs ys : List ℕ) (a : ℕ)
    → IsDistinct (xs ++ (a ∷ ys))
    → All (λ (b : ℕ). a ≢ b) xs × All (λ (b : ℕ). a ≢ b) ys
distinct_around [] ys a h = (tt, h.0)
distinct_around (x ∷ xs) ys a h =
    let (before, behind) = distinct_around xs ys a h.1 in
    ((λ e. All-middle (λ (b : ℕ). x ≢ b) xs ys a h.0 (sym e), before), behind)

-- A walk leaves the end of the chain, and all of it is gone only if there was nothing.
pub extract_pairs-suffix :
    (kept rest : List Pair)
    → (gone : List ℕ) × (addresses kept ++ addresses rest
        ≡ gone ++ addresses (extract_pairs kept rest).pair_f)
      × (1 ≤ length kept + length rest → 1 ≤ length (extract_pairs kept rest).pair_f)
unfolding extract_pairs
extract_pairs-suffix kept [] = ([], append-nil (addresses kept), λ h. omega (arith, h))
extract_pairs-suffix kept (p ∷ rest) = elim (chain_behind-cases kept p rest) [
  | inl (nothing, more) ↦
      let (gone, e, n) = extract_pairs-suffix [] rest in
      (
        addresses kept ++ (p.address ∷ gone),
        rw nothing (
            ap (λ (l : List ℕ). addresses kept ++ (p.address ∷ l)) e
            ∙ sym (
                append_assoc (addresses kept) (p.address ∷ gone)
                  (addresses (extract_pairs [] rest).pair_f))),
        λ h. rw nothing (n (omega (arith, more))),
      )
  | inr stays ↦
      let kept' = kept ++ mark_pair p.request_header p ∷ [] in
      let (gone, e, n) = extract_pairs-suffix kept' rest in
      (
        gone,
        rw stays (
            sym (append_assoc (addresses kept) (p.address ∷ []) (addresses rest))
            ∙ ap (λ (l : List ℕ). l ++ addresses rest) (sym (kept_addresses kept p))
            ∙ e),
        λ h. rw stays (n (omega (arith, length-append kept (mark_pair p.request_header p ∷ [])))),
      )
]
