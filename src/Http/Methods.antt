-- ===== src/Http/Methods.antt =====
-- `_http::Request::parseMethod` of src/protocols/http.cpp, on a word that a space follows.
use monitoring_tool.Prelude.{
  ℕ, zero, suc, ◌+◌, ◌≤◌, ◌≡◌, ◌≢◌, refl, sym, ap, ◌∙◌, Bool, true, false, not, ◌&&◌, ◌||◌, some,
  List, [], ◌∷◌, ◌++◌, arith, ◌==◌, if◌then◌else◌, length, get_elem?, All, ==_iff,
}
use monitoring_tool.Text.{codes, strncmp}
use monitoring_tool.Text.Tokens.{IsToken}
use monitoring_tool.Http.{methods_name, has_prefix, space_at, first_name, parse_method}

-- A text begins with a word.
abbrev pub begins : (word text : List ℕ) → Bool
begins [] text = true
begins (c ∷ word) [] = false
begins (c ∷ word) (t ∷ text) = if c == t then begins word text else false

-- The number of the first of the names that begins with a word, 0 without one.
abbrev pub code_of : (word : List ℕ) → (i : ℕ) → (names : List (List ℕ)) → ℕ
code_of word i [] = 0
code_of word i (name ∷ names) = if begins word name then i else code_of word (i + 1) names

-- A word is not taken for the prefix of two bytes.
abbrev pub is_prefixed : List ℕ → Bool
is_prefixed word = begins (codes "M-") word || begins (13 ∷ 10 ∷ []) word

-- No byte is zero.
abbrev pub IsText : List ℕ → Type 0
IsText word = All (λ (c : ℕ). c ≢ 0) word

strncmp-word :
    (word text rest : List ℕ)
    → IsText word
    → strncmp (length word) (word ++ rest) text ≡ some (begins word text)
unfolding strncmp
strncmp-word [] text rest h = refl
strncmp-word (c ∷ word) [] rest h = ground (arith, h.0)
strncmp-word (c ∷ word) (t ∷ text) rest h = rw (strncmp-word word text rest h.1) (ground arith)

first_name-word :
    (word rest : List ℕ) (i : ℕ) (names : List (List ℕ))
    → IsText word
    → first_name (length word) (word ++ rest) i names ≡ some (code_of word i names)
unfolding first_name
first_name-word word rest i [] h = refl
first_name-word word rest i (name ∷ names) h =
    rw (strncmp-word word name rest h, first_name-word word rest (i + 1) names h) (ground arith)

space_at-word :
    (word rest : List ℕ) (n : ℕ)
    → IsToken word
    → length word ≤ n
    → space_at n (word ++ (32 ∷ rest)) ≡ some (length word)
unfolding space_at
space_at-word [] rest zero h bound = refl
space_at-word [] rest (suc n) h bound = refl
space_at-word (c ∷ word) rest zero h bound = absurd (omega arith)
space_at-word (c ∷ word) rest (suc n) h bound =
    rw (space_at-word word rest n h.1 (omega arith)) (ground (arith, h.0.0))

strncmp-two :
    (word rest : List ℕ) (a b : ℕ)
    → a ≢ 32
    → b ≢ 32
    → strncmp 2 (word ++ (32 ∷ rest)) (a ∷ b ∷ []) ≡ some (begins (a ∷ b ∷ []) word)
unfolding strncmp
strncmp-two [] rest a b na nb = ground (arith, na)
strncmp-two (c ∷ []) rest a b na nb = ground (arith, nb)
strncmp-two (c ∷ d ∷ word) rest a b na nb = ground arith

has_prefix-word :
    (word rest : List ℕ) (n : ℕ)
    → is_prefixed word ≡ false
    → has_prefix n (word ++ (32 ∷ rest)) ≡ some false
unfolding has_prefix
has_prefix-word word rest n h =
    rw
      (
        strncmp-two word rest b'M' b'-' (omega arith) (omega arith),
        strncmp-two word rest 13 10 (omega arith) (omega arith),
      )
      (ground (arith, h))

-- For a word that a space follows on the line, `parseMethod` always comes back, with the number of the
-- first method whose name begins with the word, and 0 where none does.
pub parse_method-word :
    (word rest : List ℕ) (linelen : ℕ)
    → IsToken word
    → IsText word
    → is_prefixed word ≡ false
    → length word ≤ linelen
    → parse_method linelen (word ++ (32 ∷ rest)) ≡ some (code_of word 0 methods_name)
unfolding parse_method
parse_method-word word rest linelen token text plain bound =
    rw (has_prefix-word word rest linelen plain, space_at-word word rest linelen token bound)
      (first_name-word word (32 ∷ rest) 0 methods_name text)

-- A test of the conditions on a word.
abbrev pub is_word : List ℕ → Bool
is_word [] = true
is_word (c ∷ word) = not (c == 32) && not (c == 13) && not (c == 10) && not (c == 0) && is_word word

is_word-IsToken : (word : List ℕ) → is_word word ≡ true → IsToken word × IsText word
is_word-IsToken [] h = (tt, tt)
is_word-IsToken (c ∷ word) h =
    let rest : is_word word ≡ true = ground (arith, h) in
    let (token, text) = is_word-IsToken word rest in
    (((ground (arith, h), ground (arith, h), ground (arith, h)), token), (ground (arith, h), text))

-- A test holds of every element, with its number.
abbrev pub every : (test : ℕ → List ℕ → Bool) → (k : ℕ) → List (List ℕ) → Bool
every test k [] = true
every test k (name ∷ names) = test k name && every test (k + 1) names

every-get :
    (test : ℕ → List ℕ → Bool) (k i : ℕ) (names : List (List ℕ)) (name : List ℕ)
    → every test k names ≡ true
    → get_elem? names i ≡ some name
    → test (k + i) name ≡ true
every-get test k i [] name h got = absurd (ground arith)
every-get test k zero (n ∷ names) name h got =
    ground (arith, h, got, ap (λ (m : ℕ). test m name) {x = k + 0} {y = k})
every-get test k (suc i) (n ∷ names) name h got =
    let number : k + 1 + i ≡ k + suc i = omega arith in
    ap (λ (m : ℕ). test m name) (sym number)
    ∙ every-get test (k + 1) i names name (ground (arith, h)) got

both : (a b : Bool) → a && b ≡ true → (a ≡ true) × (b ≡ true)
both true true h = (refl, refl)
both true false h = cc
both false b h = cc

not-true : (a : Bool) → not a ≡ true → a ≡ false
not-true true h = sym h
not-true false h = refl

-- Number `i` of the names is a word, of which `code_of` answers the number.
abbrev pub is_method : ℕ → List ℕ → Bool
is_method i name = is_word name && (not (is_prefixed name) && (code_of name 0 methods_name == i))

pub method-word :
    (i : ℕ) (name : List ℕ)
    → get_elem? methods_name i ≡ some name
    → IsToken name × IsText name × (is_prefixed name ≡ false) × (code_of name 0 methods_name ≡ i)
method-word i name got =
    let start : i ≡ 0 + i = omega arith in
    let (word, others) =
      both (is_word name) (not (is_prefixed name) && (code_of name 0 methods_name == i)) (
        ap (λ (m : ℕ). is_method m name) start
        ∙ every-get is_method 0 i methods_name name refl got) in
    let (plain, number) = both (not (is_prefixed name)) (code_of name 0 methods_name == i) others in
    let (token, text) = is_word-IsToken name word in
    (
      token,
      text,
      not-true (is_prefixed name) plain,
      (==_iff (code_of name 0 methods_name) i).0 number,
    )

-- Every method of the table is recognised: on a line that starts with its name and a space,
-- `parseMethod` answers its number.
pub parse_method-name :
    (i : ℕ) (name rest : List ℕ) (linelen : ℕ)
    → get_elem? methods_name i ≡ some name
    → length name ≤ linelen
    → parse_method linelen (name ++ (32 ∷ rest)) ≡ some i
parse_method-name i name rest linelen got bound =
    let (token, text, plain, number) = method-word i name got in
    parse_method-word name rest linelen token text plain bound ∙ ap some number
