-- ===== src/Http/RequestLine.antt =====
-- The first line of a request, src/protocols/http.cpp: a method, an URI and a version with one space
-- between each two.
use native.Mathlib.Numerals.{add-one}
use mathlib.Core.List.{append_assoc}
use monitoring_tool.Prelude.{
  ℕ, suc, ◌+◌, ◌-◌, ◌≤◌, ◌<◌, ◌≡◌, ◌≢◌, refl, ap, ◌∙◌, false, some, List, [], ◌∷◌, ◌++◌, arith,
  ◌==◌, length, length-append, drop, All-append,
}
use monitoring_tool.Text.{codes}
use monitoring_tool.Text.Lines.{IsLine, get_elem?-end}
use monitoring_tool.Text.Values.{memcpy-append}
use monitoring_tool.Text.Tokens.{IsToken, get_token_len-blank}
use monitoring_tool.Http.{
  Version, http_ver_1_0, http_ver_1_1, http_ver_none, spaced_token, uri_at, parse_uri,
  response_version, version_at, request_version,
}

abbrev pub version_tail : Version → List ℕ
version_tail http_ver_1_0 = codes "TTP/1.0"
version_tail http_ver_1_1 = codes "TTP/1.1"
version_tail http_ver_none = codes "TTP/2.0"

-- A version as it is written, of the unknown ones the second.
abbrev pub version_text : Version → List ℕ
version_text v = b'H' ∷ version_tail v

pub version_text-IsLine : (v : Version) → IsLine (version_text v)
version_text-IsLine http_ver_1_0 = ground arith
version_text-IsLine http_ver_1_1 = ground arith
version_text-IsLine http_ver_none = ground arith

pub response_version-text :
    (v : Version) (rest : List ℕ) → response_version (version_text v ++ rest) ≡ some v
unfolding response_version
response_version-text http_ver_1_0 rest = refl
response_version-text http_ver_1_1 rest = refl
response_version-text http_ver_none rest = refl

pub drop-token : (t q : List ℕ) → drop (length t + 1) (t ++ (32 ∷ q)) ≡ q
drop-token t q = rw add-one (go t)
  where
    go : (t : List ℕ) → drop (suc (length t)) (t ++ (32 ∷ q)) ≡ q
    go [] = refl
    go (c ∷ t) = go t

pub spaced_token-blank :
    (t rest : List ℕ) (b n : ℕ)
    → IsToken t
    → 1 ≤ length t
    → b ≢ 32
    → length t < n
    → spaced_token n (t ++ (32 ∷ b ∷ rest)) ≡ some (some (length t, length t + 1))
unfolding spaced_token
spaced_token-blank t rest b n token long other bound =
    let full : length t == 0 ≡ false = ground (arith, long) in
    rw (get_token_len-blank t rest b n token other bound, full, get_elem?-end t 32 (b ∷ rest)) refl

-- A line, and what stands behind it, in the three parts.
abbrev pub request_line : (method uri version : List ℕ) → List ℕ
request_line method uri version = method ++ (32 ∷ (uri ++ (32 ∷ version)))

module _ (m u v : List ℕ) (b w n : ℕ) (method : IsToken m) (long : 1 ≤ length m)
    (uri : IsToken (b ∷ u)) (other : w ≢ 32) (bound : length m + length u + 4 ≤ n) where
  behind_method :
      spaced_token n (request_line m (b ∷ u) (w ∷ v)) ≡ some (some (length m, length m + 1))
  behind_method = spaced_token-blank m (u ++ (32 ∷ w ∷ v)) b n method long uri.0.0 (omega arith)

  behind_uri :
      spaced_token (n - (length m + 1)) ((b ∷ u) ++ (32 ∷ w ∷ v))
      ≡ some (some (length (b ∷ u), length (b ∷ u) + 1))
  behind_uri =
      spaced_token-blank (b ∷ u) v w (n - (length m + 1)) uri (omega arith) other (omega arith)

  -- The URI is read back.
  pub parse_uri-request_line : parse_uri n (request_line m (b ∷ u) (w ∷ v)) ≡ some (some (b ∷ u))
  unfolding parse_uri uri_at
  parse_uri-request_line = rw behind_method (
      ap (uri_at (n - (length m + 1))) (drop-token m ((b ∷ u) ++ (32 ∷ w ∷ v)))
      ∙ rw (behind_uri, memcpy-append (b ∷ u) (32 ∷ w ∷ v)) refl)

  pub request_version-request_line :
      request_version n (request_line m (b ∷ u) (w ∷ v)) ≡ response_version (w ∷ v)
  unfolding request_version version_at
  request_version-request_line =
      let more : n - (length m + 1) - (length (b ∷ u) + 1) == 0 ≡ false = ground arith in
      rw behind_method (
        ap (version_at (n - (length m + 1))) (drop-token m ((b ∷ u) ++ (32 ∷ w ∷ v)))
        ∙ rw (behind_uri, more) (ap response_version (drop-token (b ∷ u) (w ∷ v))))

pub IsToken-IsLine : (t : List ℕ) → IsToken t → IsLine t
IsToken-IsLine [] h = tt
IsToken-IsLine (c ∷ t) h = ((h.0.1, h.0.2), IsToken-IsLine t h.1)

pub request_line-IsLine :
    (m u v : List ℕ) → IsToken m → IsToken u → IsLine v → IsLine (request_line m u v)
request_line-IsLine m u v method uri version =
    let ok = λ (c : ℕ). (c ≢ 13) × (c ≢ 10) in
    All-append ok m (32 ∷ (u ++ (32 ∷ v))) (IsToken-IsLine m method) (
      (omega arith, omega arith),
      All-append ok u (32 ∷ v) (IsToken-IsLine u uri) ((omega arith, omega arith), version),
    )

pub request_line-append : (m u v q : List ℕ) → request_line m u v ++ q ≡ request_line m u (v ++ q)
request_line-append m u v q =
    append_assoc m (32 ∷ (u ++ (32 ∷ v))) q
    ∙ ap (λ (l : List ℕ). m ++ (32 ∷ l)) (append_assoc u (32 ∷ v) q)

pub length-request_line :
    (m u v : List ℕ) → length (request_line m u v) ≡ length m + length u + length v + 2
length-request_line m u v =
    omega (arith, length-append m (32 ∷ (u ++ (32 ∷ v))), length-append u (32 ∷ v))
