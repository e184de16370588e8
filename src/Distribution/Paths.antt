-- ===== src/Distribution/Paths.antt =====
-- The path of an URI, `extractReqPath` of c-http-sniffer/src/metrics/reqPath.cpp.

use mathlib.Core.Option
use monitoring_tool.Prelude.{
  ℕ, suc, ◌+◌, ◌≡◌, refl, ap, true, false, Option, none, some, List, [], ◌∷◌, ◌++◌, ◌⊎◌, inl, inr,
  if◌then◌else◌, ◌==◌, arith, All, Bool-cases, take,
}
use monitoring_tool.Distribution.{find_char, find_last_of, substr_to, extract_req_path}

-- No character of the text is `c`.
abbrev pub Lacks : ℕ → List ℕ → Type 0
Lacks c text = All (λ (b : ℕ). (b == c) ≡ false) text

-- The text in front of a character, which begins the rest if there is one.
abbrev pub IsBefore : ℕ → (front text : List ℕ) → Type 0
IsBefore c front text =
    Lacks c front
    × ((front ≡ text)
        ⊎ ((rest : List ℕ) × (b : ℕ) × (text ≡ front ++ (b ∷ rest)) × ((b == c) ≡ true)))

IsBefore-cons :
    (c b : ℕ) (bs : List ℕ) (o : Option ℕ)
    → (b == c) ≡ false
    → IsBefore c (substr_to o bs) bs
    → IsBefore c (substr_to (Option.map suc o) (b ∷ bs)) (b ∷ bs)
IsBefore-cons c b bs none miss (lacks, _) = ((miss, lacks), inl refl)
IsBefore-cons c b bs (some n) miss (lacks, inl e) =
    ((miss, lacks), inl (ap (λ (l : List ℕ). b ∷ l) e))
IsBefore-cons c b bs (some n) miss (lacks, inr (rest, d, e, hit)) =
    ((miss, lacks), inr (rest, d, ap (λ (l : List ℕ). b ∷ l) e, hit))

find_char-IsBefore : (c : ℕ) (text : List ℕ) → IsBefore c (substr_to (find_char c text) text) text
unfolding find_char
find_char-IsBefore c [] = (tt, inl refl)
find_char-IsBefore c (b ∷ bs) = elim (Bool-cases (b == c)) [
  | inl hit ↦ rw hit (tt, inr (bs, b, refl, hit))
  | inr miss ↦ rw miss (IsBefore-cons c b bs (find_char c bs) miss (find_char-IsBefore c bs))
]

-- The text up to the last `c`, which is its end, with none behind it.
abbrev pub IsUpTo : ℕ → (front text : List ℕ) → Type 0
IsUpTo c front text =
    ((q : List ℕ) × (b : ℕ) × (front ≡ q ++ b ∷ []) × ((b == c) ≡ true))
    × ((rest : List ℕ) × (text ≡ front ++ rest) × Lacks c rest)

-- What `find_last_of` answers on a text.
abbrev IsLast : ℕ → List ℕ → Option ℕ → Type 0
IsLast c text none = Lacks c text
IsLast c text (some n) = IsUpTo c (take (n + 1) text) text

IsLast-cons :
    (c b : ℕ) (bs : List ℕ) (o : Option ℕ)
    → IsLast c bs o
    → IsLast c (b ∷ bs) (elim o as (λ x. Option ℕ) [
      | some n ↦ some (suc n)
      | none ↦ if b == c then some 0 else none
    ])
IsLast-cons c b bs none lacks = elim (Bool-cases (b == c)) [
  | inl hit ↦ rw hit (([], b, refl, hit), (bs, refl, lacks))
  | inr miss ↦ rw miss (miss, lacks)
]
IsLast-cons c b bs (some n) ((q, d, e, hit), (rest, f, lacks)) =
    let shift : suc n + 1 ≡ suc (n + 1) = omega arith in
    let longer : take (suc n + 1) (b ∷ bs) ≡ b ∷ take (n + 1) bs =
      ap (λ (k : ℕ). take k (b ∷ bs)) shift in
    rw longer
      ((b ∷ q, d, ap (λ (l : List ℕ). b ∷ l) e, hit), (rest, ap (λ (l : List ℕ). b ∷ l) f, lacks))

find_last_of-IsLast : (c : ℕ) (text : List ℕ) → IsLast c text (find_last_of c text)
unfolding find_last_of
find_last_of-IsLast c [] = tt
find_last_of-IsLast c (b ∷ bs) = IsLast-cons c b bs (find_last_of c bs) (find_last_of-IsLast c bs)

path_of :
    (uri : List ℕ) (o : Option ℕ)
    → IsLast 47 uri o
    → IsUpTo 47
        (elim o as (λ x. List ℕ) [
          | none ↦ substr_to (find_char 63 uri) uri
          | some last ↦ take (last + 1) uri
        ])
        uri
      ⊎ (Lacks 47 uri
          × IsBefore 63
              (elim o as (λ x. List ℕ) [
                | none ↦ substr_to (find_char 63 uri) uri
                | some last ↦ take (last + 1) uri
              ])
              uri)
path_of uri none lacks = inr (lacks, find_char-IsBefore 63 uri)
path_of uri (some n) up_to = inl up_to

-- The path of an URI is its beginning up to its last '/', which ends it, even where this '/' stands in
-- the query; the path of an URI without a '/' is its beginning before the first '?', or all of it without
-- one.
pub extract_req_path-IsUpTo :
    (uri : List ℕ)
    → IsUpTo 47 (extract_req_path uri) uri ⊎ (Lacks 47 uri × IsBefore 63 (extract_req_path uri) uri)
unfolding extract_req_path
extract_req_path-IsUpTo uri = path_of uri (find_last_of 47 uri) (find_last_of-IsLast 47 uri)
