-- ===== src/Prelude/Partial.antt =====
-- Steps that may fault: `none` is an access outside the memory that it is meant for.
use mathlib.Core.Path.{◌≡◌, refl, ap, transport}
use mathlib.Core.Bool.{Bool, true, false}
use mathlib.Core.Option.{Option, none, some}

infixl 5 ◌>>=◌
abbrev pub ◌>>=◌ {ℓ κ} : {A : Type ℓ} {B : Type κ} → Option A → (A → Option B) → Option B
none >>= f = none
some a >>= f = f a

-- Inversion of a step that did not fault.
pub >>=-eq-some {ℓ κ} :
    {A : Type ℓ} {B : Type κ} (m : Option A) (f : A → Option B) {b : B}
    → (m >>= f) ≡ some b
    → (a : A) × (m ≡ some a) × (f a ≡ some b)
>>=-eq-some none f h = cc
>>=-eq-some (some a) f h = (a, refl, h)

pub >>=-returns {ℓ ℓ'} :
    {A : Type ℓ} {B : Type ℓ'} (x : Option A) (k : A → Option B) {a : A} {b : Option B}
    → x ≡ some a
    → k a ≡ b
    → (x >>= k) ≡ b
>>=-returns x k e f = rw e f

-- A predicate on what a step returns, if it returns.
abbrev pub Holds {ℓ κ} : {A : Type ℓ} → (A → Type κ) → Option A → Type κ
Holds P none = Unit {κ}
Holds P (some a) = P a

pub Holds->>= {ℓ ℓ' κ} :
    {A : Type ℓ} {B : Type ℓ'} (P : B → Type κ) (m : Option A) (k : A → Option B)
    → ((a : A) → m ≡ some a → Holds P (k a))
    → Holds P (m >>= k)
Holds->>= P none k h = tt
Holds->>= P (some a) k h = h a refl

-- What holds of each result holds of the result that is there.
pub Holds-some {ℓ κ} :
    {A : Type ℓ} (P : A → Type κ) {x : Option A} {a : A} → x ≡ some a → Holds P x → P a
Holds-some P e h = transport (ap (Holds P) e) h

pub Holds-elim {ℓ κ} :
    {A : Type ℓ} (P : A → Type κ) (b : Bool) (x y : Option A)
    → Holds P x
    → Holds P y
    → Holds P (elim b as (λ c. Option A) [ true ↦ x | false ↦ y ])
Holds-elim P true x y hx hy = hx
Holds-elim P false x y hx hy = hy
