-- ===== src/Http/Inside.antt =====
-- `isRequest` and `isResponse` of c-http-sniffer/src/protocols/http.cpp stay inside a payload that is as
-- long as they are told.
use monitoring_tool.Prelude.{
  ℕ, zero, suc, ◌+◌, ◌-◌, ◌≤◌, ◌≡◌, refl, Bool, true, false, Option, none, some, List, [], ◌∷◌,
  arith, leb, ltb, ◌==◌, if◌then◌else◌, length, drop, length-drop, Bool-cases, inl, inr,
}
use monitoring_tool.Prelude.Partial.{◌>>=◌, >>=-returns}
use monitoring_tool.Text.{codes, strncmp, find_header_end}
use monitoring_tool.Text.HeaderEnd.{blank_line, find_header_end-blank_line}
use monitoring_tool.Http.{
  Version, http_ver_1_0, http_ver_1_1, http_ver_none, methods_name, has_prefix, space_at,
  first_name, parse_method, response_version, is_request, is_response,
}

-- An answer that is there.
abbrev pub Returns {ℓ} : {A : Type ℓ} → Option A → Type ℓ
Returns {A = A} o = (x : A) × (o ≡ some x)

strncmp-Returns : (n : ℕ) (bytes text : List ℕ) → n ≤ length bytes → Returns (strncmp n bytes text)
unfolding strncmp
strncmp-Returns zero bytes text h = (true, refl)
strncmp-Returns (suc n) [] text h = absurd (omega (arith, h))
strncmp-Returns (suc n) (b ∷ bytes) [] h = (b == 0, refl)
strncmp-Returns (suc n) (b ∷ bytes) (t ∷ text) h =
    let (x, e) = strncmp-Returns n bytes text (omega (arith, h)) in
    elim (Bool-cases (b == t)) [
      | inl same ↦ (x, rw (e, same) refl)
      | inr other ↦ (false, rw (e, other) refl)
    ]

space_at-Returns :
    (n : ℕ) (ptr : List ℕ)
    → n ≤ length ptr
    → (index : ℕ) × (space_at n ptr ≡ some index) × (index ≤ n)
unfolding space_at
space_at-Returns zero ptr h = (0, refl, omega arith)
space_at-Returns (suc n) [] h = absurd (omega (arith, h))
space_at-Returns (suc n) (b ∷ ptr) h =
    let (index, e, within) = space_at-Returns n ptr (omega (arith, h)) in
    elim (Bool-cases (b == 32)) [
      | inl here ↦ (0, rw here refl, omega arith)
      | inr other ↦ (suc index, rw (other, e) refl, omega (arith, within))
    ]

first_name-Returns :
    (index : ℕ) (bytes : List ℕ) (i : ℕ) (names : List (List ℕ))
    → index ≤ length bytes
    → Returns (first_name index bytes i names)
unfolding first_name
first_name-Returns index bytes i [] h = (0, refl)
first_name-Returns index bytes i (name ∷ names) h =
    let (same, e) = strncmp-Returns index bytes name h in
    let (later, f) = first_name-Returns index bytes (i + 1) names h in
    elim (Bool-cases same) [
      | inl hit ↦ (i, >>=-returns (strncmp index bytes name) _ e (rw hit refl))
      | inr miss ↦ (later, >>=-returns (strncmp index bytes name) _ e (rw miss f))
    ]

-- A prefix is two bytes.
has_prefix-Returns :
    (linelen : ℕ) (bytes : List ℕ)
    → linelen ≤ length bytes
    → (b : Bool) × (has_prefix linelen bytes ≡ some b) × (b ≡ true → 2 ≤ linelen)
unfolding has_prefix
has_prefix-Returns linelen bytes h = elim (Bool-cases (leb 2 linelen)) [
  | inr short ↦ (false, rw short refl, λ e. absurd (ground (arith, e)))
  | inl long ↦
      let two : 2 ≤ linelen = ground (arith, long) in
      let (mandatory, e) = strncmp-Returns 2 bytes (codes "M-") (omega (arith, h, two)) in
      let (line_end, f) = strncmp-Returns 2 bytes (13 ∷ 10 ∷ []) (omega (arith, h, two)) in
      elim (Bool-cases mandatory) [
        | inl hit ↦
            (true, rw long (>>=-returns (strncmp 2 bytes (codes "M-")) _ e (rw hit refl)), λ q. two)
        | inr miss ↦ (
          line_end,
          rw long (>>=-returns (strncmp 2 bytes (codes "M-")) _ e (rw miss f)),
          λ q. two,
        )
      ]
]

-- The method behind the prefix, if there is one.
method_at :
    (prefix : Bool) (linelen : ℕ) (bytes : List ℕ)
    → linelen ≤ length bytes
    → (prefix ≡ true → 2 ≤ linelen)
    → Returns (
        space_at (if prefix then linelen - 2 else linelen) (if prefix then drop 2 bytes else bytes)
        >>= λ index. first_name index (if prefix then drop 2 bytes else bytes) 0 methods_name)
method_at prefix linelen bytes h two =
    let n = if prefix then linelen - 2 else linelen in
    let method = if prefix then drop 2 bytes else bytes in
    let fits : n ≤ length method = elim (Bool-cases prefix) [
      | inl hit ↦ rw hit (omega (arith, h, two hit, length-drop 2 bytes))
      | inr miss ↦ rw miss h
    ] in
    let (index, e, within) = space_at-Returns n method fits in
    let (code, f) = first_name-Returns index method 0 methods_name (omega (arith, within, fits)) in
    (code, >>=-returns (space_at n method) _ e f)

parse_method-Returns :
    (linelen : ℕ) (bytes : List ℕ) → linelen ≤ length bytes → Returns (parse_method linelen bytes)
unfolding parse_method
parse_method-Returns linelen bytes h =
    let (prefix, e, two) = has_prefix-Returns linelen bytes h in
    let (code, f) = method_at prefix linelen bytes h two in
    (code, >>=-returns (has_prefix linelen bytes) _ e f)

pub is_request-Returns :
    (datalen : ℕ) (ptr : List ℕ) → datalen ≤ length ptr → Returns (is_request datalen ptr)
unfolding is_request
is_request-Returns datalen ptr h =
    let (code, e) = parse_method-Returns datalen ptr h in
    let (cnt, f) = find_header_end-blank_line datalen ptr h in
    elim (Bool-cases (code == 0)) [
      | inl unknown ↦ (none, >>=-returns (parse_method datalen ptr) _ e (rw unknown refl))
      | inr known ↦ (
        blank_line 2 datalen ptr,
        >>=-returns (parse_method datalen ptr) _ e
            (rw known (>>=-returns (find_header_end datalen ptr) _ f refl)),
      )
    ]

response_version-Returns : (line : List ℕ) → 8 ≤ length line → Returns (response_version line)
unfolding response_version
response_version-Returns line h =
    let (v10, e) = strncmp-Returns 8 line (codes "HTTP/1.0") h in
    let (v11, f) = strncmp-Returns 8 line (codes "HTTP/1.1") h in
    elim (Bool-cases v10) [
      | inl hit ↦ (http_ver_1_0, >>=-returns (strncmp 8 line (codes "HTTP/1.0")) _ e (rw hit refl))
      | inr miss ↦ (
        (if v11 then http_ver_1_1 else http_ver_none),
        >>=-returns (strncmp 8 line (codes "HTTP/1.0")) _ e
            (rw miss (>>=-returns (strncmp 8 line (codes "HTTP/1.1")) _ f refl)),
      )
    ]

pub is_response-Returns :
    (datalen : ℕ) (ptr : List ℕ) → datalen ≤ length ptr → Returns (is_response datalen ptr)
unfolding is_response
is_response-Returns datalen ptr h = elim (Bool-cases (ltb datalen 8)) [
  | inl short ↦ (none, rw short refl)
  | inr long ↦
      let (version, e) = response_version-Returns ptr (ground (arith, long, h)) in
      let (cnt, f) = find_header_end-blank_line datalen ptr h in
      let (answer, g) =
        by_version version datalen ptr (>>=-returns (find_header_end datalen ptr) _ f refl) in
      (answer, rw long (>>=-returns (response_version ptr) _ e g))
]
  where
    by_version :
        (version : Version) (n : ℕ) (p : List ℕ) {o : Option ℕ}
        → (find_header_end n p >>= λ r. some r.0) ≡ some o
        → Returns (elim version as (λ v. Option (Option ℕ)) [
          | http_ver_none ↦ some none
          | _ ↦ find_header_end n p >>= λ r. some r.0
        ])
    by_version http_ver_none n p e = (none, refl)
    by_version http_ver_1_0 n p {o} e = (o, e)
    by_version http_ver_1_1 n p {o} e = (o, e)
