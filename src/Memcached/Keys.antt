-- ===== src/Memcached/Keys.antt =====
-- The keys of a `get`, src/protocols/memcached.cpp.
use mathlib.Core.List.{append_assoc}
use monitoring_tool.Prelude.{
  ℕ, zero, suc, ◌+◌, ◌-◌, ◌≤◌, ◌<◌, ◌≡◌, ◌≢◌, refl, ap, ◌∙◌, false, some, List, [], ◌∷◌, ◌++◌,
  arith, ◌==◌, length, length-append, drop, All, All-append,
}
use monitoring_tool.Prelude.Partial.{>>=-returns}
use monitoring_tool.Text.{codes, get_token_len, find_line_end}
use monitoring_tool.Text.Lines.{IsLine, get_elem?-end, find_line_end-line}
use monitoring_tool.Text.Values.{memcpy-append}
use monitoring_tool.Text.Tokens.{IsToken, get_token_len-blank, get_token_len-end}
use monitoring_tool.Http.RequestLine.{drop-token, IsToken-IsLine}
use monitoring_tool.Memcached.{parse_command, byte_behind, get_keys}
use monitoring_tool.Memcached.Request.{Request, keys_of, request_new}

-- A word of the line: a token that is not empty.
abbrev pub IsWord : List ℕ → Type 0
IsWord w = IsToken w × (1 ≤ length w)

-- Words with a space between each two.
abbrev pub sentence : List ℕ → (words : List (List ℕ)) → List ℕ
sentence w [] = w
sentence w (v ∷ words) = w ++ (32 ∷ sentence v words)

-- All words but the last.
abbrev pub but_last : List ℕ → (words : List (List ℕ)) → List (List ℕ)
but_last w [] = []
but_last w (v ∷ words) = w ∷ but_last v words

byte_behind-word :
    (w rest : List ℕ) (b : ℕ)
    → 1 ≤ length w
    → byte_behind (length w) (w ++ (b ∷ rest)) ≡ some (some b)
unfolding byte_behind
byte_behind-word w rest b h =
    let full : length w == 0 ≡ false = ground (arith, h) in rw (full, get_elem?-end w b rest) refl

-- The first byte of a sentence is none of a word's end.
sentence-first :
    (w : List ℕ) (words : List (List ℕ)) (rest : List ℕ)
    → IsWord w
    → (b : ℕ) × (l : List ℕ) × (sentence w words ++ rest ≡ b ∷ l) × (b ≢ 32)
sentence-first [] words rest h = absurd (omega (arith, h.1))
sentence-first (c ∷ w) [] rest h = (c, w ++ rest, refl, h.0.0.0)
sentence-first (c ∷ w) (v ∷ words) rest h =
    (c, (w ++ (32 ∷ sentence v words)) ++ rest, refl, h.0.0.0)

get_keys-sentence :
    (w : List ℕ) (words : List (List ℕ)) (rest : List ℕ) (fuel n : ℕ)
    → IsWord w
    → All IsWord words
    → length (sentence w words) + 1 ≤ n
    → n ≤ length (sentence w words) + 2
    → length (sentence w words) < fuel
    → get_keys fuel n (sentence w words ++ (13 ∷ 10 ∷ rest)) ≡ some (but_last w words)
unfolding get_keys
get_keys-sentence w words rest zero n h a low high enough = absurd (omega arith)
get_keys-sentence w [] rest (suc fuel) n h a low high enough =
    let (next, tokens) =
      get_token_len-end w (10 ∷ rest) 13 n h.0 refl (omega arith)
        (omega (arith, length-append w (13 ∷ 10 ∷ rest))) in
    rw (tokens, byte_behind-word w (10 ∷ rest) 13 h.1) refl
get_keys-sentence w (v ∷ words) rest (suc fuel) n h a low high enough =
    let more = sentence v words ++ (13 ∷ 10 ∷ rest) in
    let split : sentence w (v ∷ words) ++ (13 ∷ 10 ∷ rest) ≡ w ++ (32 ∷ more) =
      append_assoc w (32 ∷ sentence v words) (13 ∷ 10 ∷ rest) in
    let (b, l, first, other) = sentence-first v words (13 ∷ 10 ∷ rest) a.0 in
    let long = length-append w (32 ∷ sentence v words) in
    let tokens : get_token_len n (w ++ (32 ∷ more)) ≡ some (length w, length w + 1) =
      ap (λ (m : List ℕ). get_token_len n (w ++ (32 ∷ m))) first
      ∙ get_token_len-blank w l b n h.0 other (omega (arith, long)) in
    let behind =
      get_keys-sentence v words rest fuel (n - (length w + 1)) a.0 a.1 (omega (arith, long))
        (omega (arith, long)) (omega (arith, long, h.1)) in
    ap (get_keys (suc fuel) n) split
    ∙ rw (tokens, byte_behind-word w more 32 h.1, memcpy-append w (32 ∷ more))
        (>>=-returns (get_keys fuel (n - (length w + 1)) (drop (length w + 1) (w ++ (32 ∷ more)))) _
          (ap (get_keys fuel (n - (length w + 1))) (drop-token w more) ∙ behind) refl)

sentence-IsLine :
    (w : List ℕ) (words : List (List ℕ)) → IsWord w → All IsWord words → IsLine (sentence w words)
sentence-IsLine w [] h a = IsToken-IsLine w h.0
sentence-IsLine w (v ∷ words) h a =
    All-append (λ (c : ℕ). (c ≢ 13) × (c ≢ 10)) w (32 ∷ sentence v words) (IsToken-IsLine w h.0)
      ((omega arith, omega arith), sentence-IsLine v words a.0 a.1)

parse_command-get :
    (n : ℕ) (rest : List ℕ) → 3 ≤ n → parse_command n (codes "get" ++ (32 ∷ rest)) ≡ some 1
unfolding parse_command
parse_command-get zero rest h = absurd (omega arith)
parse_command-get (suc zero) rest h = absurd (omega arith)
parse_command-get (suc (suc zero)) rest h = absurd (omega arith)
parse_command-get (suc (suc (suc zero))) rest h = refl
parse_command-get (suc (suc (suc (suc n)))) rest h = refl

-- A line of `get`, keys and one space between each two words, which CR and LF end: the constructor of a
-- request always comes back. It takes the command for the first key and leaves out the last one.
pub request_new_get :
    (memory : Request) (val dataend : ℕ) (key : List ℕ) (keys : List (List ℕ)) (rest : List ℕ)
    (seq nxt_seq : ℕ)
    → IsWord key
    → All IsWord keys
    → length (sentence (codes "get") (key ∷ keys)) + 1 ≤ dataend
    → request_new memory val dataend
        (sentence (codes "get") (key ∷ keys) ++ (13 ∷ 10 ∷ rest))
        seq
        nxt_seq
      ≡ some (record memory {
        processed = false;
        seq = seq;
        nxt_seq = nxt_seq;
        hdlen = length (sentence (codes "get") (key ∷ keys)) + 2;
        method_code = 1;
        keys = but_last (codes "get") (key ∷ keys);
      })
unfolding request_new keys_of
request_new_get memory val dataend key keys rest seq nxt_seq h a bound =
    let line = sentence (codes "get") (key ∷ keys) in
    let word : IsWord (codes "get") = (ground arith, omega arith) in
    let whole = sentence-IsLine (codes "get") (key ∷ keys) word (h, a) in
    let read =
      get_keys-sentence (codes "get") (key ∷ keys) rest (suc (length line) + 1) (suc (length line))
        word (h, a) (omega arith) (omega arith) (omega arith) in
    >>=-returns (find_line_end dataend (line ++ (13 ∷ 10 ∷ rest))) _
      (find_line_end-line line rest dataend whole (omega arith))
      (>>=-returns (parse_command (suc (length line) + 1) (line ++ (13 ∷ 10 ∷ rest))) _
        (parse_command-get (suc (length line) + 1) (sentence key keys ++ (13 ∷ 10 ∷ rest))
          (omega arith))
        (>>=-returns
          (get_keys (suc (length line) + 1) (suc (length line)) (line ++ (13 ∷ 10 ∷ rest))) _ read
          (ap
            (λ (k : ℕ). some (record memory {
              processed = false;
              seq = seq;
              nxt_seq = nxt_seq;
              hdlen = k;
              method_code = 1;
              keys = but_last (codes "get") (key ∷ keys);
            }))
            (omega arith))))
