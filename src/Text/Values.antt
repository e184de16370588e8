-- ===== src/Text/Values.antt =====
-- One line of a header, as `header_param` of src/protocols/protocol.cpp reads it.
use monitoring_tool.Prelude.{
  ℕ, zero, suc, ◌+◌, ◌-◌, ◌≤◌, ◌<◌, ◌≡◌, ◌≢◌, refl, sym, ap, ◌∙◌, Bool, true, false, Option, none,
  some, List, [], ◌∷◌, ◌++◌, arith, ◌==◌, if◌then◌else◌, length, get_elem?, drop, length-drop, All,
}
use monitoring_tool.Prelude.Partial.{>>=-returns}
use monitoring_tool.Text.{lower, same_case, memcpy, skip_spaces, move_eol, param_value}
use monitoring_tool.Text.Lines.{IsLine, get_elem?-end}

-- The name of a field, with its colon.
abbrev pub IsName : List ℕ → Type 0
IsName param = All (λ (t : ℕ). t ≢ 13) param

-- A line starts with a text, in letters of either case.
abbrev pub starts : List ℕ → (text : List ℕ) → Bool
starts l [] = true
starts [] (t ∷ text) = false
starts (c ∷ l) (t ∷ text) = if lower c == lower t then starts l text else false

abbrev pub spaces : List ℕ → ℕ
spaces [] = 0
spaces (b ∷ l) = if b == 32 then suc (spaces l) else 0

-- What is read of the text behind a field's name. Of an empty value it is the CR.
abbrev pub or_cr : List ℕ → List ℕ
or_cr [] = 13 ∷ []
or_cr (b ∷ l) = b ∷ l

abbrev pub value_of : List ℕ → List ℕ
value_of text = or_cr (drop (spaces text) text)

-- The value of the first line that starts with a name.
abbrev pub field_value : (param : List ℕ) → (lines : List (List ℕ)) → Option (List ℕ)
field_value param [] = none
field_value param (l ∷ lines) =
    if starts l param then some (value_of (drop (length param) l)) else field_value param lines

pub same_case-line :
    (l param rest : List ℕ)
    → IsName param
    → same_case (l ++ (13 ∷ rest)) param ≡ some (starts l param)
unfolding same_case
same_case-line [] [] rest h = refl
same_case-line (c ∷ l) [] rest h = refl
same_case-line [] (t ∷ param) rest h = ground (arith, h.0)
same_case-line (c ∷ l) (t ∷ param) rest h = rw (same_case-line l param rest h.1) (ground arith)

pub starts-length : (l param : List ℕ) → starts l param ≡ true → length param ≤ length l
starts-length l [] h = omega arith
starts-length [] (t ∷ param) h = absurd (ground (arith, h))
starts-length (c ∷ l) (t ∷ param) h = ground (arith, h, starts-length l param)

spaces-length : (l : List ℕ) → spaces l ≤ length l
spaces-length [] = omega arith
spaces-length (b ∷ l) = ground (arith, spaces-length l)

skip_spaces-line :
    (l rest : List ℕ) (c lineend : ℕ)
    → c + length l < lineend
    → skip_spaces c lineend (l ++ (13 ∷ rest)) ≡ some (c + spaces l)
unfolding skip_spaces
skip_spaces-line [] rest c lineend h = ground arith
skip_spaces-line (b ∷ l) rest c lineend h =
    rw (skip_spaces-line l rest (c + 1) lineend (omega arith)) (ground arith)

pub memcpy-append : (xs ys : List ℕ) → memcpy (length xs) (xs ++ ys) ≡ some xs
unfolding memcpy
memcpy-append [] ys = refl
memcpy-append (x ∷ xs) ys = rw (memcpy-append xs ys) refl

IsLine-get :
    (l rest : List ℕ) (i : ℕ)
    → IsLine l
    → i < length l
    → (b : ℕ) × (get_elem? (l ++ rest) i ≡ some b) × (b ≢ 13) × (b ≢ 10)
IsLine-get [] rest i h bound = absurd (omega arith)
IsLine-get (c ∷ l) rest zero h bound = (c, refl, h.0.0, h.0.1)
IsLine-get (c ∷ l) rest (suc i) h bound = IsLine-get l rest i h.1 (omega arith)

move_eol-stops :
    (eol c b : ℕ) (line : List ℕ)
    → get_elem? line eol ≡ some b
    → b ≢ 13
    → b ≢ 10
    → move_eol eol c line ≡ some eol
unfolding move_eol
move_eol-stops zero c b line got n13 n10 = rw got refl
move_eol-stops (suc eol) c b line got n13 n10 = rw got (ground arith)

move_eol-least : (c : ℕ) (line : List ℕ) → get_elem? line c ≡ some 13 → move_eol c c line ≡ some c
unfolding move_eol
move_eol-least zero line got = rw got refl
move_eol-least (suc c) line got = rw got (ground arith)

move_eol-back :
    (e c b : ℕ) (line : List ℕ)
    → get_elem? line (suc e) ≡ some 13
    → c < suc e
    → get_elem? line e ≡ some b
    → b ≢ 13
    → b ≢ 10
    → move_eol (suc e) c line ≡ some e
unfolding move_eol
move_eol-back e c b line cr within got n13 n10 =
    rw (cr, move_eol-stops e c b line got n13 n10) (ground (arith, within))

-- From the end of a line behind its value, the end is moved to the last byte of the value.
move_eol-line :
    (l v rest : List ℕ) (c : ℕ)
    → IsLine l
    → c + length v ≡ length l
    → move_eol (length l) c (l ++ (13 ∷ rest)) ≡ some (c + (length (or_cr v) - 1))
move_eol-line l [] rest c h e =
    let here : c ≡ length l = omega (arith, e) in
    rw (sym here, move_eol-least c (l ++ (13 ∷ rest)) (rw here (get_elem?-end l 13 rest)))
      (ground arith)
move_eol-line l (x ∷ v) rest c h e =
    let n : length l ≡ suc (c + length v) = omega (arith, e) in
    let (b, got, n13, n10) = IsLine-get l (13 ∷ rest) (c + length v) h (omega arith) in
    rw n (
      move_eol-back (c + length v) c b (l ++ (13 ∷ rest))
        (sym (ap (get_elem? (l ++ (13 ∷ rest))) n) ∙ get_elem?-end l 13 rest) (omega arith) got n13
        n10
      ∙ ap some (omega arith))

drop-append_left : (p : ℕ) (l q : List ℕ) → p ≤ length l → drop p (l ++ q) ≡ drop p l ++ q
drop-append_left zero l q h = refl
drop-append_left (suc p) [] q h = absurd (omega arith)
drop-append_left (suc p) (x ∷ l) q h = drop-append_left p l q (omega arith)

drop-drop : (p s c : ℕ) (l : List ℕ) → c ≡ p + s → drop c l ≡ drop s (drop p l)
drop-drop zero s c l h = let same : c ≡ s = omega arith in rw same refl
drop-drop (suc p) s zero l h = absurd (omega arith)
drop-drop (suc p) zero (suc c) [] h = refl
drop-drop (suc p) (suc s) (suc c) [] h = refl
drop-drop (suc p) s (suc c) (x ∷ l) h = drop-drop p s c l (omega arith)

memcpy-or_cr : (v rest : List ℕ) → memcpy (length (or_cr v)) (v ++ (13 ∷ rest)) ≡ some (or_cr v)
unfolding memcpy
memcpy-or_cr [] rest = refl
memcpy-or_cr (x ∷ v) rest = memcpy-append (x ∷ v) (13 ∷ rest)

length-or_cr : (v : List ℕ) → 1 ≤ length (or_cr v)
length-or_cr [] = omega arith
length-or_cr (x ∷ v) = omega arith

pub param_value-line :
    (l param rest : List ℕ)
    → IsLine l
    → length param ≤ length l
    → param_value (length param) (suc (length l)) (length l) (l ++ (13 ∷ 10 ∷ rest))
      ≡ some (value_of (drop (length param) l))
unfolding param_value
param_value-line l param rest h bound =
    let q = 13 ∷ 10 ∷ rest in
    let p = length param in
    let r = drop p l in
    let v = drop (spaces r) r in
    let c = p + spaces r in
    let long : c + length v ≡ length l =
      omega (arith, spaces-length r, length-drop p l, length-drop (spaces r) r) in
    let count : (c + (length (or_cr v) - 1)) - c + 1 ≡ length (or_cr v) =
      omega (arith, length-or_cr v) in
    let copied : drop c (l ++ q) ≡ v ++ q =
      drop-append_left c l q (omega arith)
      ∙ ap (λ (m : List ℕ). m ++ q) (drop-drop p (spaces r) c l refl) in
    rw (drop-append_left p l q bound) (
      >>=-returns (skip_spaces p (suc (length l)) (r ++ q)) _
        (skip_spaces-line r (10 ∷ rest) p (suc (length l)) (omega (arith, length-drop p l)))
        (>>=-returns (move_eol (length l) c (l ++ q)) _ (move_eol-line l v (10 ∷ rest) c h long)
          (rw (count, copied) (memcpy-or_cr v (10 ∷ rest)))))
