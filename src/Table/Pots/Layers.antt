-- ===== src/Table/Pots/Layers.antt =====
-- engine/src/table.cc, `build_side_pots`: the two loops against a plain recursion over the sorted
-- contributions, the fuel, and the chips of the pots.
use poker_epoll.Base.{
  ℕ, zero, suc, ◌+◌, ◌-◌, ◌*◌, ◌≤◌, ◌<◌, ◌≡◌, refl, ap, List, [], ◌∷◌, ◌++◌, length, Map, total,
  done, ltb, ◌==◌, if◌then◌else◌, arith, u64_size, mul64_exact,
}
use poker_epoll.Rules.{PlayerId, Chips}
use poker_epoll.Table.{PlayerState, SidePot}
use poker_epoll.Table.Pots.{ids, strike_level, layer_pot, pots_loop}

-- The pots, by one step for each contribution.
unfoldable pub layers : Map PlayerState → Chips → Map Chips → List SidePot
layers states previous [] = []
layers states previous ((id, level) ∷ rest) =
    layer_pot states previous level (id ∷ ids rest)
    ++ layers states (if ltb previous level then level else previous) rest

-- What the inner loop leaves of the contributions.
skip : Chips → Map Chips → Map Chips
skip level [] = []
skip level ((id, amount) ∷ rest) = if amount == level then skip level rest else (id, amount) ∷ rest

strike_level-ids :
    (level : Chips) (c : Map Chips)
    → strike_level level c (ids c) ≡ (skip level c, ids (skip level c))
unfolding strike_level skip
strike_level-ids level [] = refl
strike_level-ids level ((id, amount) ∷ rest) = ground (arith, strike_level-ids level rest)

length-skip : (level : Chips) (c : Map Chips) → length (skip level c) ≤ length c
unfolding skip
length-skip level [] = omega arith
length-skip level ((id, amount) ∷ rest) = ground (arith, length-skip level rest)

strike_first :
    (id : PlayerId) (level : Chips) (rest : Map Chips)
    → strike_level level ((id, level) ∷ rest) (ids ((id, level) ∷ rest))
      ≡ (skip level rest, ids (skip level rest))
unfolding strike_level
strike_first id level rest = ground (arith, strike_level-ids level rest)

abbrev pub higher : Chips → Chips → Chips
higher previous level = if ltb previous level then level else previous

-- Contributions that do not rise above the last level make no pot.
layers-skip :
    (states : Map PlayerState) (level previous : Chips) (c : Map Chips)
    → level ≤ previous
    → layers states previous (skip level c) ≡ layers states previous c
unfolding layers skip layer_pot
layers-skip states level previous [] h = refl
layers-skip states level previous ((id, amount) ∷ rest) h =
    ground (arith, layers-skip states level previous rest h)

-- With fuel for each contribution the loops end, and they make the layers.
pub pots_loop-eq-layers :
    (fuel : ℕ) (states : Map PlayerState) (previous : Chips) (c : Map Chips)
    → length c ≤ fuel
    → pots_loop fuel states previous c (ids c) ≡ done (layers states previous c)
unfolding pots_loop layers
pots_loop-eq-layers zero states previous [] h = refl
pots_loop-eq-layers (suc fuel) states previous [] h = refl
pots_loop-eq-layers zero states previous ((id, level) ∷ rest) h = elim h [ ]
pots_loop-eq-layers (suc fuel) states previous ((id, level) ∷ rest) h = rw (
  strike_first id level rest,
  pots_loop-eq-layers fuel states (higher previous level) (skip level rest)
      (omega (arith, length-skip level rest)),
  layers-skip states level (higher previous level) rest (ground arith),
)

abbrev pub pot_sum : List SidePot → Chips
pot_sum [] = 0
pot_sum (p ∷ pots) = p.amount + pot_sum pots

pot_sum-append : (ps qs : List SidePot) → pot_sum (ps ++ qs) ≡ pot_sum ps + pot_sum qs
pot_sum-append [] qs = omega arith
pot_sum-append (p ∷ ps) qs = omega (arith, pot_sum-append ps qs)

-- The amounts rise, from `low` on.
abbrev pub Ascending : Chips → Map Chips → Type 0
Ascending low [] = Unit
Ascending low ((id, amount) ∷ rest) = (low ≤ amount) × Ascending amount rest

pub Ascending-total : (low : Chips) (c : Map Chips) → Ascending low c → low * length c ≤ total c
Ascending-total low [] h = omega arith
Ascending-total low ((id, amount) ∷ rest) h = grind (arith, Ascending-total amount rest h.1)

pot_sum-layer_pot :
    (states : Map PlayerState) (previous level : Chips) (remaining : List PlayerId)
    → (level - previous) * length remaining < u64_size
    → pot_sum (layer_pot states previous level remaining) ≡ (level - previous) * length remaining
unfolding layer_pot
pot_sum-layer_pot states previous level remaining h =
    ground (arith, mul64_exact (level - previous) (length remaining) h)

pub length-ids : (c : Map Chips) → length (ids c) ≡ length c
length-ids [] = refl
length-ids (e ∷ c) = ap suc (length-ids c)

pub layer_area :
    (previous level n : ℕ)
    → previous ≤ level
    → (level - previous) * suc n + previous * suc n ≡ level + level * n
layer_area previous level n h =
    let e : level ≡ (level - previous) + previous = omega arith in grind (arith, e)

pot_sum_first :
    (previous level : Chips) (id : PlayerId) (rest : Map Chips) (states : Map PlayerState)
    → (level - previous) * suc (length rest) < u64_size
    → pot_sum (layer_pot states previous level (id ∷ ids rest))
      ≡ (level - previous) * suc (length rest)
pot_sum_first previous level id rest states h =
    let e : length (id ∷ ids rest) ≡ suc (length rest) = ap suc (length-ids rest) in
    rw (← e) (pot_sum-layer_pot states previous level (id ∷ ids rest) (rw e h))

pub pot_sum-layers :
    (states : Map PlayerState) (previous : Chips) (c : Map Chips)
    → Ascending previous c
    → total c < u64_size
    → pot_sum (layers states previous c) + previous * length c ≡ total c
unfolding layers
pot_sum-layers states previous [] h b = omega arith
pot_sum-layers states previous ((id, level) ∷ rest) h b =
    let e : higher previous level ≡ level = ground arith in
    let small : (level - previous) * suc (length rest) < u64_size =
      omega (arith, layer_area previous level (length rest) h.0, Ascending-total level rest h.1) in
    rw e (
      omega (
        arith,
        pot_sum-append (layer_pot states previous level (id ∷ ids rest)) (layers states level rest),
        pot_sum_first previous level id rest states small,
        pot_sum-layers states level rest h.1 (omega arith),
        layer_area previous level (length rest) h.0,
      ))
