-- ===== src/Base/Outcomes.antt =====
-- What running a piece of the program gives. `fault` stands for every behaviour that the source
-- does not define or does not survive: a dereference of an empty `std::optional` or of a failed
-- `std::expected`, an `.at` on a missing key, a division by zero, and a loop that does not end.
use mathlib.Core.Path.{◌≡◌, refl}

pub data Outcome {ℓ} (A : Type ℓ) : Type ℓ where
  done : A → Outcome A
  fault : Outcome A

-- `std::expected<A, E>`.
pub data Expected (E : Type 0) (A : Type 0) : Type 0 where
  value : A → Expected E A
  unexpected : E → Expected E A

infixl 5 ◌>>=◌
abbrev pub ◌>>=◌ {ℓ κ} : {A : Type ℓ} {B : Type κ} → Outcome A → (A → Outcome B) → Outcome B
done a >>= f = f a
fault >>= f = fault

-- A successful bind, taken apart.
pub >>=-eq-done {ℓ κ} :
    {A : Type ℓ} {B : Type κ} (m : Outcome A) (f : A → Outcome B) {b : B}
    → (m >>= f) ≡ done b
    → (a : A) × (m ≡ done a) × (f a ≡ done b)
>>=-eq-done (done a) f h = (a, refl, h)
>>=-eq-done fault f h = cc

-- The run ends, and what it gives satisfies `P`.
abbrev pub Returns {ℓ} : {A : Type ℓ} → (A → Type 0) → Outcome A → Type 0
Returns P (done a) = P a
Returns P fault = ⊥

pub Returns-done {ℓ} :
    {A : Type ℓ} (P : A → Type 0) (m : Outcome A) → Returns P m → (a : A) × (m ≡ done a) × P a
Returns-done P (done a) h = (a, refl, h)
Returns-done P fault h = absurd h

pub Returns->>= {ℓ κ} :
    {A : Type ℓ} {B : Type κ} (P : A → Type 0) (Q : B → Type 0) (m : Outcome A) (f : A → Outcome B)
    → Returns P m
    → ((a : A) → P a → Returns Q (f a))
    → Returns Q (m >>= f)
Returns->>= P Q (done a) f h k = k a h
Returns->>= P Q fault f h k = absurd h

pub Returns-map {ℓ} :
    {A : Type ℓ} (P Q : A → Type 0) (m : Outcome A)
    → Returns P m
    → ((a : A) → P a → Q a)
    → Returns Q m
Returns-map P Q (done a) h k = k a h
Returns-map P Q fault h k = absurd h

-- What the run gives satisfies `P`, if it ends.
abbrev pub IfDone {ℓ} : {A : Type ℓ} → (A → Type 0) → Outcome A → Type 0
IfDone P (done a) = P a
IfDone P fault = Unit

pub IfDone->>= {ℓ κ} :
    {A : Type ℓ} {B : Type κ} (P : B → Type 0) (m : Outcome A) (f : A → Outcome B)
    → ((a : A) → IfDone P (f a))
    → IfDone P (m >>= f)
IfDone->>= P (done a) f h = h a
IfDone->>= P fault f h = tt

pub Returns-IfDone :
    {A : Type 0} (P Q : A → Type 0) (m : Outcome A)
    → Returns P m
    → IfDone Q m
    → Returns (λ a. P a × Q a) m
Returns-IfDone P Q (done a) p q = (p, q)
Returns-IfDone P Q fault p q = absurd p

pub IfDone-map {ℓ} :
    {A : Type ℓ} (P Q : A → Type 0) (m : Outcome A)
    → IfDone P m
    → ((a : A) → P a → Q a)
    → IfDone Q m
IfDone-map P Q (done a) h k = k a h
IfDone-map P Q fault h k = tt
