-- ===== src/Text/Tokens.antt =====
-- `get_token_len` of src/protocols/protocol.cpp.
use monitoring_tool.Prelude.{
  ℕ, zero, suc, ◌+◌, ◌-◌, ◌≤◌, ◌<◌, ◌≡◌, ◌≢◌, refl, some, List, [], ◌∷◌, ◌++◌, arith, ◌==◌, ◌||◌,
  Bool, true, inl, inr, Bool-cases, length-append, length, drop-append, All,
}
use monitoring_tool.Text.{token_end, blanks_end, get_token_len}

abbrev pub IsToken : List ℕ → Type 0
IsToken t = All (λ (c : ℕ). (c ≢ 32) × (c ≢ 13) × (c ≢ 10)) t

token_end-blank :
    (t rest : List ℕ) (n : ℕ)
    → IsToken t
    → length t ≤ n
    → token_end n (t ++ (32 ∷ rest)) ≡ some (length t)
unfolding token_end
token_end-blank [] rest zero h bound = refl
token_end-blank [] rest (suc n) h bound = refl
token_end-blank (c ∷ t) rest zero h bound = absurd (omega arith)
token_end-blank (c ∷ t) rest (suc n) h bound =
    rw (token_end-blank t rest n h.1 (omega arith)) (ground arith)

blanks_end-one : (n b : ℕ) (rest : List ℕ) → 1 ≤ n → b ≢ 32 → blanks_end n (32 ∷ b ∷ rest) ≡ some 1
unfolding blanks_end
blanks_end-one zero b rest h other = absurd (omega arith)
blanks_end-one (suc zero) b rest h other = refl
blanks_end-one (suc (suc n)) b rest h other = ground arith

-- A token, one blank, and another byte than a blank, at which the next token begins.
pub get_token_len-blank :
    (t rest : List ℕ) (b n : ℕ)
    → IsToken t
    → b ≢ 32
    → length t < n
    → get_token_len n (t ++ (32 ∷ b ∷ rest)) ≡ some (length t, length t + 1)
unfolding get_token_len
get_token_len-blank t rest b n h other bound =
    rw
      (
        token_end-blank t (b ∷ rest) n h (omega arith),
        drop-append t (32 ∷ b ∷ rest),
        blanks_end-one (n - length t) b rest (omega arith) other,
      )
      refl

-- A blank, a CR or an LF.
abbrev pub is_end : ℕ → Bool
is_end e = e == 32 || e == 13 || e == 10

token_end-end :
    (t rest : List ℕ) (e n : ℕ)
    → IsToken t
    → is_end e ≡ true
    → length t ≤ n
    → token_end n (t ++ (e ∷ rest)) ≡ some (length t)
unfolding token_end
token_end-end [] rest e zero h end bound = refl
token_end-end [] rest e (suc n) h end bound = rw end refl
token_end-end (c ∷ t) rest e zero h end bound = absurd (omega arith)
token_end-end (c ∷ t) rest e (suc n) h end bound =
    rw (token_end-end t rest e n h.1 end (omega arith)) (ground (arith, h.0))

blanks_end-some : (n : ℕ) (p : List ℕ) → n ≤ length p → (k : ℕ) × (blanks_end n p ≡ some k)
unfolding blanks_end
blanks_end-some zero p h = (0, refl)
blanks_end-some (suc n) [] h = absurd (omega arith)
blanks_end-some (suc n) (b ∷ p) h =
    let (k, e) = blanks_end-some n p (omega arith) in
    elim (Bool-cases (b == 32)) [
      | inl blank ↦ (suc k, rw (blank, e) refl)
      | inr other ↦ (0, rw other refl)
    ]

pub get_token_len-end :
    (t rest : List ℕ) (e n : ℕ)
    → IsToken t
    → is_end e ≡ true
    → length t ≤ n
    → n ≤ length (t ++ (e ∷ rest))
    → (next : ℕ) × (get_token_len n (t ++ (e ∷ rest)) ≡ some (length t, next))
unfolding get_token_len
get_token_len-end t rest e n h end bound inside =
    let (k, blanks) =
      blanks_end-some (n - length t) (e ∷ rest) (omega (arith, length-append t (e ∷ rest))) in
    (length t + k, rw (token_end-end t rest e n h end bound, drop-append t (e ∷ rest), blanks) refl)
