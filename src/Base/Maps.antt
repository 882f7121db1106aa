-- ===== src/Base/Maps.antt =====
-- `std::unordered_map` keyed by numbers, as an association list. The order of the list has no
-- meaning: where the program iterates over a map, the model asks the environment for an order.
use Prim.Native.Nat.{ℕ, ◌+◌, ◌≤◌}
use mathlib.Core.Path.{◌≡◌, refl}
use mathlib.Core.Bool.{Bool, true, false}
use mathlib.Core.Logic.{◌≢◌, ◌⊎◌}
use mathlib.Core.List.{List, [], ◌∷◌}
use mathlib.Core.Option.{Option, none, some}
use native.Mathlib.Omega.{arith}
use poker_epoll.Base.Tests.{◌==◌, if◌then◌else◌}

abbrev pub Map {ℓ} : Type ℓ → Type ℓ
Map V = List (ℕ × V)

module _ {ℓ} {V : Type ℓ} where
  -- `find`
  abbrev pub lookup : ℕ → Map V → Option V
  lookup k [] = none
  lookup k ((j, v) ∷ m) = if k == j then some v else lookup k m

  -- `contains`, `count`
  abbrev pub has_key : ℕ → Map V → Bool
  has_key k m = elim (lookup k m) [ none ↦ false | some v ↦ true ]

  -- `m[k] = v`
  abbrev pub insert : ℕ → V → Map V → Map V
  insert k v [] = (k, v) ∷ []
  insert k v (e ∷ m) = if k == e.0 then (k, v) ∷ m else e ∷ insert k v m

  -- `erase`
  abbrev pub erase : ℕ → Map V → Map V
  erase k [] = []
  erase k (e ∷ m) = if k == e.0 then m else e ∷ erase k m

  -- The value that `m[k]` reads: a missing key is first given the default value.
  abbrev pub lookup_or : ℕ → V → Map V → V
  lookup_or k d m = elim (lookup k m) [ none ↦ d | some v ↦ v ]

  -- What reading `m[k]` leaves behind.
  abbrev pub touch : ℕ → V → Map V → Map V
  touch k d m = elim (lookup k m) [ none ↦ insert k d m | some v ↦ m ]

  pub lookup-insert :
      (j k : ℕ) (v : V) (m : Map V)
      → lookup j (insert k v m) ≡ (if j == k then some v else lookup j m)
  lookup-insert j k v [] = refl
  lookup-insert j k v (e ∷ m) = ground (arith, lookup-insert j k v m)

  pub lookup-erase_ne : (j k : ℕ) (m : Map V) → j ≢ k → lookup j (erase k m) ≡ lookup j m
  lookup-erase_ne j k [] h = refl
  lookup-erase_ne j k (e ∷ m) h = ground (arith, lookup-erase_ne j k m h)

-- The sum of the values of a map.
abbrev pub total : Map ℕ → ℕ
total [] = 0
total ((k, v) ∷ m) = v + total m

pub total-insert : (k v : ℕ) (m : Map ℕ) → total (insert k v m) + lookup_or k 0 m ≡ total m + v
total-insert k v [] = omega arith
total-insert k v (e ∷ m) = ground (arith, total-insert k v m)

pub lookup_or-le-total : (k : ℕ) (m : Map ℕ) → lookup_or k 0 m ≤ total m
lookup_or-le-total k [] = omega arith
lookup_or-le-total k (e ∷ m) = ground (arith, lookup_or-le-total k m)

-- What is found in a map after an insertion: what was inserted, or what was there.
pub insert_cases :
    {V : Type 0} (j k : ℕ) (v w : V) (m : Map V)
    → lookup j (insert k v m) ≡ some w
    → ((j ≡ k) × (v ≡ w)) ⊎ ((j ≢ k) × (lookup j m ≡ some w))
insert_cases j k v w m e = ground (arith, lookup-insert j k v m)
