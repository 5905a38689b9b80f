-- ===== src/Common/Ending.antt =====
-- How a call ends. The build's `TEEIO_ASSERT` (library/debuglib/teeio_debug.c) prints and then
-- spins for ever, so a failed assertion never returns; a use of NULL is undefined.
use mathlib.Core.Path.{◌≡◌, refl, subst, sym}
use mathlib.Core.Bool.{Bool, true, false}
use mathlib.Core.Option.{Option, none, some}

pub data Outcome {ℓ} (A : Type ℓ) : Type ℓ where
  returns : A → Outcome A
  asserts : Outcome A
  faults : Outcome A

infixl 5 ◌>>=◌ ◌>>◌
abbrev pub ◌>>=◌ {ℓ κ} : {A : Type ℓ} {B : Type κ} → Outcome A → (A → Outcome B) → Outcome B
returns a >>= f = f a
asserts >>= f = asserts
faults >>= f = faults

abbrev pub ◌>>◌ {ℓ} : {B : Type ℓ} → Outcome (Unit {0}) → Outcome B → Outcome B
m >> k = m >>= λ _. k

-- `TEEIO_ASSERT(b)`.
abbrev pub teeio_assert : Bool → Outcome (Unit {0})
teeio_assert true = returns tt
teeio_assert false = asserts

pub >>=-eq-returns {ℓ κ} :
    {A : Type ℓ} {B : Type κ} (m : Outcome A) (f : A → Outcome B) {b : B}
    → (m >>= f) ≡ returns b
    → (a : A) × (m ≡ returns a) × (f a ≡ returns b)
>>=-eq-returns (returns a) f h = (a, refl, h)
>>=-eq-returns asserts f h = cc
>>=-eq-returns faults f h = cc

pub >>=-of-returns {ℓ κ} :
    {A : Type ℓ} {B : Type κ} (m : Outcome A) (f : A → Outcome B) {a : A} {r : Outcome B}
    → m ≡ returns a
    → f a ≡ r
    → (m >>= f) ≡ r
>>=-of-returns m f {r = r} h k = subst (λ n. (n >>= f) ≡ r) (sym h) k

pub returns-injective {ℓ} : {A : Type ℓ} {a b : A} → returns a ≡ returns b → a ≡ b
returns-injective h = cc

-- What follows an assertion is reached only where it holds.
pub teeio_assert-eq-returns {ℓ} :
    {A : Type ℓ} (b : Bool) (m : Outcome A) {a : A}
    → (teeio_assert b >> m) ≡ returns a
    → (b ≡ true) × (m ≡ returns a)
teeio_assert-eq-returns true m h = (refl, h)
teeio_assert-eq-returns false m h = cc

pub teeio_assert-holds {ℓ} :
    {A : Type ℓ} {b : Bool} {m : Outcome A} {a : A}
    → b ≡ true
    → m ≡ returns a
    → (teeio_assert b >> m) ≡ returns a
teeio_assert-holds {b = true} h e = e
teeio_assert-holds {b = false} h e = cc

-- A chain of lookups, each of which may find nothing.
abbrev pub and_then {ℓ κ} : {A : Type ℓ} {B : Type κ} → Option A → (A → Option B) → Option B
and_then none f = none
and_then (some a) f = f a

pub and_then-eq-some {ℓ κ} :
    {A : Type ℓ} {B : Type κ} (m : Option A) (f : A → Option B) {b : B}
    → and_then m f ≡ some b
    → (a : A) × (m ≡ some a) × (f a ≡ some b)
and_then-eq-some none f h = cc
and_then-eq-some (some a) f h = (a, refl, h)

-- `P` holds of what is returned, if the call returns.
abbrev pub Ensures {ℓ κ} : {A : Type ℓ} → (A → Type κ) → Outcome A → Type κ
Ensures P (returns a) = P a
Ensures P asserts = Unit
Ensures P faults = Unit

pub Ensures->>= {ℓ κ} :
    {A : Type ℓ} {B : Type κ} (Q : A → Type 0) (P : B → Type 0) (m : Outcome A) (f : A → Outcome B)
    → Ensures Q m
    → ((a : A) → Q a → Ensures P (f a))
    → Ensures P (m >>= f)
Ensures->>= Q P (returns a) f h k = k a h
Ensures->>= Q P asserts f h k = tt
Ensures->>= Q P faults f h k = tt

pub Ensures-of_returns {ℓ} :
    {A : Type ℓ} (P : A → Type 0) (m : Outcome A) → ((a : A) → m ≡ returns a → P a) → Ensures P m
Ensures-of_returns P (returns a) h = h a refl
Ensures-of_returns P asserts h = tt
Ensures-of_returns P faults h = tt

-- The use of a pointer that may be NULL.
pub Ensures-deref {ℓ κ} :
    {A : Type ℓ} {B : Type κ} (P : B → Type 0) (o : Option A) (f : A → Outcome B)
    → ((a : A) → o ≡ some a → Ensures P (f a))
    → Ensures P (elim o [ none ↦ faults | some a ↦ f a ])
Ensures-deref P none f h = tt
Ensures-deref P (some a) f h = h a refl

pub Ensures-option {ℓ κ} :
    {A : Type ℓ} {B : Type κ} (P : B → Type 0) (o : Option A) (d : Outcome B) (f : A → Outcome B)
    → Ensures P d
    → ((a : A) → o ≡ some a → Ensures P (f a))
    → Ensures P (elim o [ none ↦ d | some a ↦ f a ])
Ensures-option P none d f e h = e
Ensures-option P (some a) d f e h = h a refl

pub Ensures-bool {κ} :
    {B : Type κ} (P : B → Type 0) (b : Bool) (x y : Outcome B)
    → Ensures P x
    → Ensures P y
    → Ensures P (elim b [ true ↦ x | false ↦ y ])
Ensures-bool P true x y h k = h
Ensures-bool P false x y h k = k

-- The same with the cases in the other order, in which early returns are written.
pub Ensures-unless {κ} :
    {B : Type κ} (P : B → Type 0) (b : Bool) (x y : Outcome B)
    → Ensures P x
    → Ensures P y
    → Ensures P (elim b [ false ↦ x | true ↦ y ])
Ensures-unless P true x y h k = k
Ensures-unless P false x y h k = h

pub Ensures-returns {ℓ} :
    {A : Type ℓ} (P : A → Type 0) (m : Outcome A) {a : A} → m ≡ returns a → Ensures P m → P a
Ensures-returns P m e h = subst (Ensures P) e h
